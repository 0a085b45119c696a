-- ===== src/Webhook/Bouncer/Once.antt =====
-- A deployment's key, and how a restart marks it.
use e_bpf_lens.Prelude.{
  ℕ, ◌+◌, ◌≤◌, String, Char, ap, code, true, false, List, [], ◌∷◌, ◌++◌, ◌≡◌, refl, arith, lookup,
  lookup-insert, if◌then◌else◌, is_some, ◌==◌, eq_iff, trim_space, LacksCode, ◌⧺◌,
}
use e_bpf_lens.Webhook.Bouncer.{
  PodBouncer, KubeClient, Call, get, patch, mutation_key, already_bounced, restart_deployment,
}

-- How many of the calls look the deployment with the key up, and how many patch it.
abbrev pub gets : String → List Call → ℕ
gets k [] = 0
gets k (get ns d ∷ calls) = (if mutation_key ns d == k then 1 else 0) + gets k calls
gets k (patch ns d p ∷ calls) = gets k calls

abbrev pub patches : String → List Call → ℕ
patches k [] = 0
patches k (get ns d ∷ calls) = patches k calls
patches k (patch ns d p ∷ calls) = (if mutation_key ns d == k then 1 else 0) + patches k calls

-- 1 if the key is marked as bounced.
abbrev pub mark : PodBouncer → String → ℕ
mark b k = if is_some (lookup k b.bounced_deployments) then 1 else 0

-- A restart marks its own deployment even where the API server fails, marks no other, and is refused
-- without a call where a name is missing: the mark of a key grows by the look-ups of that key.
pub mark-restart_deployment :
    (client : KubeClient) (b : PodBouncer) (ns d k : String)
    → already_bounced b ns d ≡ false
    → mark (restart_deployment client b ns d).bouncer k
      ≡ mark b k + gets k (restart_deployment client b ns d).calls
unfolding restart_deployment already_bounced
mark-restart_deployment client b ns d k fresh = ground (
  arith,
  lookup-insert (mutation_key ns d) k true b.bounced_deployments,
  eq_iff (mutation_key ns d) k,
)

pub patches-le-gets_restart :
    (client : KubeClient) (b : PodBouncer) (ns d k : String)
    → patches k (restart_deployment client b ns d).calls
      ≤ gets k (restart_deployment client b ns d).calls
unfolding restart_deployment
patches-le-gets_restart client b ns d k = ground arith

pub gets-append : (k : String) (cs ds : List Call) → gets k (cs ++ ds) ≡ gets k cs + gets k ds
gets-append k [] ds = omega arith
gets-append k (get ns d ∷ cs) ds = omega (arith, gets-append k cs ds)
gets-append k (patch ns d p ∷ cs) ds = gets-append k cs ds

pub patches-append :
    (k : String) (cs ds : List Call) → patches k (cs ++ ds) ≡ patches k cs + patches k ds
patches-append k [] ds = omega arith
patches-append k (get ns d ∷ cs) ds = patches-append k cs ds
patches-append k (patch ns d p ∷ cs) ds = omega (arith, patches-append k cs ds)

-- The text behind the first colon is determined by what stands before it.
colon_inj :
    (a b s t : String)
    → LacksCode b':' a
    → LacksCode b':' b
    → a ⧺ ":" ⧺ s ≡ b ⧺ ":" ⧺ t
    → (a ≡ b) × (s ≡ t)
colon_inj String.[] String.[] s t ha hb e = (refl, cc)
colon_inj String.[] (String.◌∷◌ c b) s t ha hb e =
    let same : ◌≡◌ {A = Char} ":" c = cc in absurd (ground (arith, ap code same))
colon_inj (String.◌∷◌ c a) String.[] s t ha hb e =
    let same : ◌≡◌ {A = Char} ":" c = cc in absurd (ground (arith, ap code same))
colon_inj (String.◌∷◌ c a) (String.◌∷◌ d b) s t ha hb e =
    let (same, rest) = colon_inj a b s t ha.1 hb.1 (cc) in (cc, rest)

-- Two deployments share a key only if their trimmed names and namespaces agree, as Kubernetes
-- namespaces hold no colon.
mutation_key_inj :
    (ns ns' d d' : String)
    → LacksCode b':' (trim_space ns)
    → LacksCode b':' (trim_space ns')
    → mutation_key ns d ≡ mutation_key ns' d'
    → (trim_space ns ≡ trim_space ns') × (trim_space d ≡ trim_space d')
unfolding mutation_key
mutation_key_inj ns ns' d d' h h' e =
    colon_inj (trim_space ns) (trim_space ns') (trim_space d) (trim_space d') h h' e
