-- ===== src/Export/Tests.antt =====
-- The survey reporters on concrete events, with a tracker, gauges and a counter that run.
mod Surveys
mod Counts
mod Processes
use e_bpf_lens.Prelude.{
  ℕ, ◌+◌, String, Bool, true, false, not, ◌&&◌, ◌||◌, Option, none, some, List, [], ◌∷◌, ◌≡◌, ◌↔◌,
  refl, arith, ap, if◌then◌else◌, Eq, Dict, get, put, delete, get-put, get-delete, eqb, any, keep,
  map, ◌==◌, inl, inr, Bool-cases, eq_iff,
}
use e_bpf_lens.Export.Labels.{ServiceUid, Attrs}
use e_bpf_lens.Export.Survey.{Tracker, GaugeVec, same_uid, same_uid_iff}
use e_bpf_lens.Export.Survey.Series.{IsGaugeVec, same_labels, same_labels_iff}
use e_bpf_lens.Export.Survey.Exported.{IsTracker, replaced}
use e_bpf_lens.Export.Survey.Otel.{UpDownCounter, ResourceApi, attribute_set}
use e_bpf_lens.Export.Survey.Otel.Counted.{IsCounter, TellsApart}

eqb_iff : (a b : ℕ) → (eqb a b ≡ true) ↔ (a ≡ b)
eqb_iff a b = ground arith

instance abbrev nat_eq : Eq ℕ
nat_eq = record { same = eqb; same_iff = eqb_iff }

abbrev Pids : Type 0
Pids = Dict ℕ ServiceUid

pub rename : ServiceUid → ServiceUid → Pids → Pids
rename a b [] = []
rename a b ((p, uid) ∷ t) = (p, if same_uid uid a then b else uid) ∷ rename a b t

names : ServiceUid → Pids → Bool
names uid [] = false
names uid ((p, u) ∷ t) = same_uid u uid || names uid t

-- The service of the process, if it was the last one of that service.
pub last_of : ℕ → Pids → Option ServiceUid → Option ServiceUid
unfolding names delete
last_of p t none = none
last_of p t (some uid) = if names uid (delete p t) then none else some uid

abbrev pub pids : Tracker Pids
pids = record {
  tracks_pid = λ t p. get p t;
  add_pid = λ p uid t. put p uid t;
  remove_pid = λ p t. (last_of p t (get p t), delete p t);
  replace_uid = rename;
}

get-rename : (a b : ServiceUid) (q : ℕ) (t : Pids) → get q (rename a b t) ≡ replaced a b (get q t)
unfolding rename get
get-rename a b q [] = refl
get-rename a b q ((p, uid) ∷ t) = elim (Bool-cases (eqb p q)) [
  | inl here ↦ rw here (ground arith)
  | inr elsewhere ↦ rw elsewhere (get-rename a b q t)
]

names-get : (q : ℕ) (uid : ServiceUid) (t : Pids) → get q t ≡ some uid → names uid t ≡ true
unfolding names get
names-get q uid [] h = cc
names-get q uid ((p, u) ∷ t) h =
    let further = names-get q uid t in ground (arith, further, same_uid_iff u uid)

last_of-some :
    (p : ℕ) (t : Pids) (o : Option ServiceUid) (uid : ServiceUid)
    → last_of p t o ≡ some uid
    → (o ≡ some uid) × (names uid (delete p t) ≡ false)
unfolding last_of
last_of-some p t none uid h = cc
last_of-some p t (some u) uid h = elim (Bool-cases (names u (delete p t))) [
  | inl more ↦ absurd (ground arith)
  | inr last ↦ let e : u ≡ uid = ground arith in (ap some e, rw (← e) last)
]

last_of_only :
    (p q : ℕ) (t : Pids) (uid : ServiceUid)
    → last_of p t (get p t) ≡ some uid
    → get q t ≡ some uid
    → eqb p q ≡ true
last_of_only p q t uid h e =
    let (was, last) = last_of-some p t (get p t) uid h in
    ground (arith, names-get q uid (delete p t), get-delete p q t)

pub pids-IsTracker : IsTracker pids (λ t. Unit)
pids-IsTracker = record {
  tracks-add = λ t p q uid. get-put p q uid t;
  tracks-remove = λ t p q. get-delete p q t;
  tracks-replace = λ t a b q sound. get-rename a b q t;
  removed_was = λ t p uid h. (last_of-some p t (get p t) uid h).0;
  removed_last = λ t p q uid sound h e. last_of_only p q t uid h e;
  sound-add = λ t p uid sound unmoved. tt;
  sound-remove = λ t p sound. tt;
  sound-replace = λ t a b sound apart. tt;
}

abbrev pub gauges : GaugeVec (List (List String))
gauges = record {
  has = λ g l. any (λ k. same_labels k l) g;
  set_one = λ l g. l ∷ g;
  delete_label_values = λ l g. keep (λ k. not (same_labels l k)) g;
}

any-keep :
    (l m : List String) (g : List (List String))
    → any (λ k. same_labels k m) (keep (λ k. not (same_labels l k)) g)
      ≡ (not (same_labels l m) && any (λ k. same_labels k m) g)
any-keep l m [] = ground arith
any-keep l m (k ∷ g) =
    let further = any-keep l m g in
    ground (arith, further, same_labels_iff l k, same_labels_iff k m, same_labels_iff l m)

pub gauges-IsGaugeVec : IsGaugeVec gauges
gauges-IsGaugeVec = record {
  has-set_one = λ g l m. refl;
  has-delete_label_values = λ g l m. any-keep l m g;
}

-- An attribute set, as the values of its four keys.
abbrev pub Set : Type 0
Set = List String

-- The last value for a key counts.
abbrev pub last_for : String → List (String × String) → String → String
last_for key [] found = found
last_for key ((k, v) ∷ attrs) found = last_for key attrs (if k == key then v else found)

abbrev pub resource : ResourceApi Set
resource = record {
  app_resource_attrs = λ a.
      ("name", a.uid.name)
      ∷ ("namespace", a.uid.namespace)
      ∷ ("host", a.host_name)
      ∷ ("instance", a.uid.instance_id)
      ∷ [];
  resource_attrs_from_env = λ a. a.env_vars;
  new_set = λ l.
      last_for "name" l ""
      ∷ last_for "namespace" l ""
      ∷ last_for "host" l ""
      ∷ last_for "instance" l ""
      ∷ [];
}

-- The environment of the service sets no attributes.
abbrev pub Plain : Attrs → Type 0
Plain a = a.env_vars ≡ []

Plain-attribute_set :
    (a : Attrs)
    → Plain a
    → attribute_set resource a ≡ a.uid.name ∷ a.uid.namespace ∷ a.host_name ∷ a.uid.instance_id ∷ []
unfolding attribute_set
Plain-attribute_set a h = rw (h, attribute_set) refl

pub Plain-TellsApart : TellsApart resource Plain
Plain-TellsApart a b ka kb h =
    let e = Plain-attribute_set a ka in let f = Plain-attribute_set b kb in ground arith

abbrev pub counters : UpDownCounter (Set → ℕ) Set
counters = record {
  value = λ c s. c s;
  add_one = λ s c t. if same_labels s t then c t + 1 else c t;
  remove = λ s c t. if same_labels s t then 0 else c t;
}

abbrev pub counters-IsCounter : IsCounter counters
counters-IsCounter = record {
  same_set = same_labels;
  same_set_iff = same_labels_iff;
  value-add_one = λ c s t. refl;
  value-remove = λ c s t. refl;
}
