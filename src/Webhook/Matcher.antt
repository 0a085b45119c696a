-- ===== src/Webhook/Matcher.antt =====
-- pkg/webhook/matcher.go: which selector a process matches. A nil selector or process is `none`.
pub mod Criteria
pub mod Labels
use e_bpf_lens.Prelude.{
  String, Bool, true, false, Option, none, some, List, [], ◌∷◌, Map, lookup, if◌then◌else◌, or_else,
}
use e_bpf_lens.Webhook.Config.{Selector}
use e_bpf_lens.Webhook.Process.{ProcessInfo}

infixl 5 ◌>>=◌
abbrev ◌>>=◌ {ℓ κ} : {A : Type ℓ} {B : Type κ} → Option A → (A → Option B) → Option B
none >>= f = none
some a >>= f = f a

-- One `range` loop of `matchProcess`, over criteria and the values that they are about: `none` is its
-- `return false`, otherwise the result is `matchedAny` after the loop.
pub check : Map (String → Bool) → Map String → Bool → Option Bool
check [] values matched_any = some matched_any
check ((name, matches) ∷ criteria) values matched_any =
    let rest = check criteria values true in
    elim (lookup name values) [ none ↦ none | some v ↦ if matches v then rest else none ]

module _ {Modes : Type 0} where
  pub check_all : ProcessInfo → Selector Modes → Option Bool
  unfolding check
  check_all actual required = do
    matched ← check required.metadata actual.metadata false
    matched ← check required.pod_labels actual.pod_labels matched
    check required.pod_annotations actual.pod_annotations matched

  unfoldable pub match_process : Option ProcessInfo → Option (Selector Modes) → Bool
  unfolding check_all
  match_process actual none = false
  match_process none (some required) = false
  match_process (some actual) (some required) = or_else (check_all actual required) false

  -- `MatchProcessInfo`: the selector that it returns with true, or `none`.
  unfoldable pub match_process_info :
      Option ProcessInfo → List (Option (Selector Modes)) → Option (Selector Modes)
  unfolding match_process
  match_process_info info [] = none
  match_process_info info (s ∷ ss) =
      let rest = match_process_info info ss in if match_process info s then s else rest

  unfoldable has_selection_criteria : List (Option (Selector Modes)) → Bool
  has_selection_criteria [] = false
  has_selection_criteria (s ∷ ss) = true
