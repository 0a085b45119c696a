-- ===== src/Webhook/Env/Frame.antt =====
-- What each write to the environment does to the variable of a given name.
use e_bpf_lens.Prelude.{
  is_some, String, Option, none, some, List, [], ◌∷◌, ◌++◌, ◌≡◌, refl, arith, ◌==◌, if◌then◌else◌,
  is_empty,
}
use e_bpf_lens.Webhook.Kube.{EnvVar, Container, field_ref}
use e_bpf_lens.Webhook.Env.{
  literal, index_of, find_env_var, set_env_var_even_if_empty, set_env_var,
  set_env_var_from_field_path,
}
use e_bpf_lens.Webhook.Env.Upsert.{find_var, find_var-upsert, set_env_var_even_if_empty-upsert}

-- The variable that the container defines under a name.
abbrev pub var : Container → String → Option EnvVar
var c j = find_var j c.env

pub var-set_env_var_even_if_empty :
    (c : Container) (k j value : String)
    → var (set_env_var_even_if_empty c k value) j
      ≡ (if k == j then some (literal k value) else var c j)
var-set_env_var_even_if_empty c k j value =
    rw set_env_var_even_if_empty-upsert (find_var-upsert k j value c.env)

-- A write of a non-empty value defines the variable, whatever was there; the write of an empty
-- value is skipped; every other variable stays.
pub var-set_env_var :
    (c : Container) (k j value : String)
    → var (set_env_var c k value) j
      ≡ (if k == j then (if is_empty value then var c j else some (literal k value)) else var c j)
unfolding set_env_var
var-set_env_var c k j value = ground (arith, var-set_env_var_even_if_empty c k j value)

-- What a list of variables holds after one more.
abbrev or_last : Option EnvVar → Option EnvVar → Option EnvVar
or_last none b = b
or_last (some a) b = some a

find_var-append :
    (j : String) (vs ws : List EnvVar)
    → find_var j (vs ++ ws) ≡ or_last (find_var j vs) (find_var j ws)
find_var-append j [] ws = refl
find_var-append j (v ∷ vs) ws = ground (arith, find_var-append j vs ws)

pub var-set_env_var_from_field_path :
    (c : Container) (k j path : String)
    → var (set_env_var_from_field_path c k path).0 j ≡ (
        if k == j
        then or_last
            (var c j)
            (some (record { name = k; value = ""; value_from = some (field_ref path) }))
        else var c j)
unfolding set_env_var_from_field_path
var-set_env_var_from_field_path c k j path = ground (
  arith,
  find_var-append j c.env
      (record { name = k; value = ""; value_from = some (field_ref path) } ∷ []),
)

is_some-index_of :
    (k : String) (vs : List EnvVar) → is_some (index_of k vs) ≡ is_some (find_var k vs)
unfolding index_of
is_some-index_of k [] = refl
is_some-index_of k (v ∷ vs) = ground (arith, is_some-index_of k vs)

-- The search by position finds a variable exactly if there is one.
pub is_some-find_env_var :
    (c : Container) (k : String) → is_some (find_env_var c k) ≡ is_some (var c k)
unfolding find_env_var
is_some-find_env_var c k = is_some-index_of k c.env

pub ruleset env_laws =
    (var-set_env_var, var-set_env_var_even_if_empty, var-set_env_var_from_field_path)
