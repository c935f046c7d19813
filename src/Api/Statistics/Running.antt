-- ===== src/Api/Statistics/Running.antt =====
-- config.go, interface.go and api.go together: the statistics of a network at any time after it was
-- configured.
use standalone_dhcp.Prelude.{◌≡◌, sym, ap, ◌∙◌, String}
use standalone_dhcp.Convert.{Bytes}
use standalone_dhcp.Dhcp.{Lib}
use standalone_dhcp.Handler.{State, Handler}
use standalone_dhcp.Discover.Settings.{Settings}
use standalone_dhcp.Serve.{Network}
use standalone_dhcp.Serve.Invariant.{Run}
use standalone_dhcp.Serve.Settings.{Run-settings}
use standalone_dhcp.Config.{Setting}
use standalone_dhcp.Config.Sections.{IsConfigured}
use standalone_dhcp.Api.Statistics.Total.{SameSettings}

module _ (lib : Lib) (env : Setting) (of_bytes : Bytes → String) where
  -- A network at any time after it was configured: what was configured, and the run since then.
  pub record IsRunning (w : Network lib) : Type 0 where
    pub origin : Network lib
    pub configured : IsConfigured lib env origin
    pub first : State lib
    pub last : State lib
    pub begins : first.handler ≡ origin.dhcp_handler
    pub runs : Run lib first last
    pub reached : last.handler ≡ w.dhcp_handler

  pub IsRunning-SameSettings :
      (w : Network lib) (r : IsRunning w)
      → SameSettings lib env of_bytes r.origin.dhcp_handler w.dhcp_handler
  IsRunning-SameSettings w r =
      let kept = Run-settings lib r.runs in
      record {
        options =
            ap (λ (h : Handler lib). h.options) (sym r.reached)
            ∙ ap (λ (x : Settings lib). x.options) kept
            ∙ ap (λ (h : Handler lib). h.options) r.begins;
        start =
            ap (λ (h : Handler lib). h.start) (sym r.reached)
            ∙ ap (λ (x : Settings lib). x.start) kept
            ∙ ap (λ (h : Handler lib). h.start) r.begins;
        ip_reserved =
            ap (λ (h : Handler lib). h.ip_reserved) (sym r.reached)
            ∙ ap (λ (x : Settings lib). x.ip_reserved) kept
            ∙ ap (λ (h : Handler lib). h.ip_reserved) r.begins;
      }
