-- ===== src/Webhook/Env/Upsert.antt =====
-- The reference definition of the writes to a container's environment: an update in place of the
-- first variable with the name, or a new variable at the end.
use e_bpf_lens.Prelude.{
  ap, sym, ◌∙◌, ℕ, String, not, Option, none, some, List, [], ◌∷◌, ◌++◌, ◌≡◌, refl, arith, ◌==◌,
  eq_iff, if◌then◌else◌, find, keep, Option-cases, inl, inr,
}
use e_bpf_lens.Webhook.Kube.{EnvVar, Container}
use e_bpf_lens.Webhook.Env.{index_of, overwrite, literal, set_env_var_even_if_empty}

-- The first variable of that name.
abbrev pub find_var : String → List EnvVar → Option EnvVar
find_var k = find (λ v. v.name == k)

pub upsert : String → String → List EnvVar → List EnvVar
upsert k value [] = literal k value ∷ []
upsert k value (v ∷ vs) =
    let rest = upsert k value vs in if v.name == k then literal k value ∷ vs else v ∷ rest

-- The variables of other names, in their order.
abbrev others : String → List EnvVar → List EnvVar
others k = keep (λ v. not (v.name == k))

-- What the two branches of `setEnvVarEvenIfEmpty` leave.
abbrev written : String → String → List EnvVar → Option ℕ → List EnvVar
written k value vs none = vs ++ literal k value ∷ []
written k value vs (some pos) = overwrite pos value vs

written-upsert :
    (k value : String) (vs : List EnvVar) → written k value vs (index_of k vs) ≡ upsert k value vs
unfolding index_of overwrite upsert
written-upsert k value [] = refl
written-upsert k value (v ∷ vs) = ground (arith, written-upsert k value vs, eq_iff v.name k)

-- The code's search by position and write by position is the upsert, and nothing else changes.
pub set_env_var_even_if_empty-upsert :
    (c : Container) (k value : String)
    → set_env_var_even_if_empty c k value ≡ record c { env = upsert k value c.env }
unfolding set_env_var_even_if_empty
set_env_var_even_if_empty-upsert c k value = elim (Option-cases (index_of k c.env)) [
  | inl e ↦ ground (arith, written-upsert k value c.env)
  | inr (pos, e) ↦ ground (arith, written-upsert k value c.env)
]

pub find_var-upsert :
    (k j value : String) (vs : List EnvVar)
    → find_var j (upsert k value vs) ≡ (if k == j then some (literal k value) else find_var j vs)
unfolding upsert
find_var-upsert k j value [] = refl
find_var-upsert k j value (v ∷ vs) =
    ground (arith, find_var-upsert k j value vs, eq_iff v.name k, eq_iff v.name j, eq_iff k j)

others-upsert : (k value : String) (vs : List EnvVar) → others k (upsert k value vs) ≡ others k vs
unfolding upsert
others-upsert k value [] = ground (arith, eq_iff k k)
others-upsert k value (v ∷ vs) =
    ground (arith, others-upsert k value vs, eq_iff k k, eq_iff v.name k)

-- A second write of the same name replaces the first.
upsert-upsert : (k a b : String) (vs : List EnvVar) → upsert k b (upsert k a vs) ≡ upsert k b vs
unfolding upsert
upsert-upsert k a b [] = ground (arith, eq_iff k k)
upsert-upsert k a b (v ∷ vs) = ground (arith, upsert-upsert k a b vs, eq_iff k k, eq_iff v.name k)

-- Of two writes of one name the last one counts, as if it were the only one, and a write keeps the
-- variables of all other names, in their order.
set_env_var_even_if_empty_last :
    (c : Container) (k a b : String)
    → (set_env_var_even_if_empty (set_env_var_even_if_empty c k a) k b
        ≡ set_env_var_even_if_empty c k b)
      × (others k (set_env_var_even_if_empty c k a).env ≡ others k c.env)
set_env_var_even_if_empty_last c k a b = (
  set_env_var_even_if_empty-upsert (set_env_var_even_if_empty c k a) k b
      ∙ ap {A = Container} (λ d. record d { env = upsert k b d.env })
          (set_env_var_even_if_empty-upsert c k a)
      ∙ ap {A = List EnvVar} (λ vs. record c { env = vs }) (upsert-upsert k a b c.env)
      ∙ sym (set_env_var_even_if_empty-upsert c k b),
  ap {A = Container} (λ d. others k d.env) (set_env_var_even_if_empty-upsert c k a)
      ∙ others-upsert k a c.env,
)
