-- ===== src/Webhook/Deps.antt =====
-- What pkg/webhook calls and does not implement: the libraries' operations as records of functions,
-- each with what their documentation promises. Every definition that calls one takes it as an
-- argument.
use e_bpf_lens.Prelude.{String, Bool, true, false, Option, ◌≡◌}

-- The sign of `semver.Compare(v, w)`.
pub data Sign : Type 0 where
  less equal greater : Sign

-- golang.org/x/mod/semver
pub record Semver : Type 0 where
  pub is_valid : String → Bool
  pub compare : String → String → Sign

abbrev pub is_less : Sign → Bool
is_less Sign.less = true
is_less _ = false

abbrev pub is_greater : Sign → Bool
is_greater Sign.greater = true
is_greater _ = false

-- The documented order: `Compare` is a total preorder, and swapping its arguments swaps its sign.
pub record IsPreorder (semver : Semver) : Type 0 where
  pub swap : (v w : String) → is_greater (semver.compare v w) ≡ is_less (semver.compare w v)
  pub less_trans :
      (u v w : String)
      → is_less (semver.compare v u) ≡ false
      → is_less (semver.compare w v) ≡ false
      → is_less (semver.compare w u) ≡ false
  pub less_irrefl : (v : String) → is_less (semver.compare v v) ≡ false

-- `services.ExportModes` of go.opentelemetry.io/obi: `NewExportModes` blocks every signal, and each
-- `Allow…` lets one signal through.
pub record ExportApi (Modes : Type 0) : Type 0 where
  pub is_unset : Modes → Bool
  pub new_export_modes : Modes
  pub allow_traces : Modes → Modes
  pub allow_metrics : Modes → Modes
  pub allow_logs : Modes → Modes
  pub can_export_traces : Modes → Bool
  pub can_export_metrics : Modes → Bool
  pub can_export_logs : Modes → Bool

pub record IsBlocking {Modes : Type 0} (api : ExportApi Modes) : Type 0 where
  pub new_traces : api.can_export_traces api.new_export_modes ≡ false
  pub new_metrics : api.can_export_metrics api.new_export_modes ≡ false
  pub new_logs : api.can_export_logs api.new_export_modes ≡ false
  pub traces_traces :
      (m : Modes)
      → api.can_export_traces m ≡ false
      → api.can_export_traces (api.allow_traces m) ≡ true
  pub traces_metrics :
      (m : Modes) → api.can_export_traces (api.allow_metrics m) ≡ api.can_export_traces m
  pub traces_logs : (m : Modes) → api.can_export_traces (api.allow_logs m) ≡ api.can_export_traces m
  pub metrics_metrics :
      (m : Modes)
      → api.can_export_metrics m ≡ false
      → api.can_export_metrics (api.allow_metrics m) ≡ true
  pub metrics_traces :
      (m : Modes) → api.can_export_metrics (api.allow_traces m) ≡ api.can_export_metrics m
  pub metrics_logs :
      (m : Modes) → api.can_export_metrics (api.allow_logs m) ≡ api.can_export_metrics m
  pub logs_logs :
      (m : Modes) → api.can_export_logs m ≡ false → api.can_export_logs (api.allow_logs m) ≡ true
  pub logs_traces : (m : Modes) → api.can_export_logs (api.allow_traces m) ≡ api.can_export_logs m
  pub logs_metrics : (m : Modes) → api.can_export_logs (api.allow_metrics m) ≡ api.can_export_logs m

-- What `reference.Parse` of github.com/distribution/reference finds in an image name: `none` for an
-- error; otherwise whether the reference has a name, and its tag and its digest.
pub record Reference : Type 0 where
  pub is_named : Bool
  pub tag : Option String
  pub digest : Option String

-- What the mutator and the server are handed: the export modes, `reference.Parse` (`none` for an
-- error), the hexadecimal print of `sha256.Sum224`, and `transform.OwnerLabelName(kind).Prom()`.
pub record Libraries (Modes : Type 0) : Type 0 where
  pub modes : ExportApi Modes
  pub parse_reference : String → Option Reference
  pub sum224 : String → String
  pub owner_label : String → String
