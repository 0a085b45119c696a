-- ===== src/Webhook/Env.antt =====
-- The environment of a container, in pkg/webhook/mutator.go and env_vars.go: `findEnvVar`,
-- `setEnvVar`, `setEnvVarEvenIfEmpty` and `setEnvVarFromFieldPath`.
pub mod Upsert
pub mod Frame
use e_bpf_lens.Prelude.{
  ℕ, String, Option, none, some, List, [], ◌∷◌, ◌++◌, ◌==◌, ◌⧺◌, if◌then◌else◌, is_empty, zero, suc,
}
use e_bpf_lens.Webhook.Kube.{EnvVar, field_ref, Container}

-- `slices.IndexFunc`: the position of the first variable with the name.
pub index_of : String → List EnvVar → Option ℕ
index_of name [] = none
index_of name (v ∷ vs) =
    let rest : Option ℕ = elim (index_of name vs) [ none ↦ none | some i ↦ some (suc i) ] in
    if v.name == name then some 0 else rest

unfoldable pub find_env_var : Container → String → Option ℕ
unfolding index_of
find_env_var c name = index_of name c.env

-- `c.Env[pos].ValueFrom = nil; c.Env[pos].Value = value`
pub overwrite : ℕ → String → List EnvVar → List EnvVar
overwrite pos value [] = []
overwrite zero value (v ∷ vs) = record v { value = value; value_from = none } ∷ vs
overwrite (suc pos) value (v ∷ vs) = v ∷ overwrite pos value vs

abbrev pub literal : String → String → EnvVar
literal name value = record { name = name; value = value; value_from = none }

unfoldable pub set_env_var_even_if_empty : Container → String → String → Container
unfolding find_env_var overwrite
set_env_var_even_if_empty c name value = elim (find_env_var c name) [
  | none ↦ record c { env = c.env ++ literal name value ∷ [] }
  | some pos ↦ record c { env = overwrite pos value c.env }
]

unfoldable pub set_env_var : Container → String → String → Container
unfolding set_env_var_even_if_empty
set_env_var c name value = if is_empty value then c else set_env_var_even_if_empty c name value

-- The new container, and the reference `$(NAME)` that the function returns.
unfoldable pub set_env_var_from_field_path : Container → String → String → Container × String
set_env_var_from_field_path c name path = (
  record c {
    env = c.env ++ record { name = name; value = ""; value_from = some (field_ref path) } ∷ [];
  },
  "$(" ⧺ name ⧺ ")",
)
