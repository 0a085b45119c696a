-- ===== src/Export/Survey/Series.antt =====
-- The label values of a service, and a map of services beside the gauges that export them.
use e_bpf_lens.Prelude.{
  String, Bool, true, false, not, ◌&&◌, ◌||◌, none, some, List, [], ◌∷◌, ◌≡◌, ◌↔◌, refl, inl, inr,
  ◌==◌, eq_iff, arith, ap, sym, ◌∙◌, Dict, get, put, delete, get-put, get-delete, Bool-cases,
}
use e_bpf_lens.Export.Labels.{
  ServiceUid, Attrs, append_k8s_label_values_service, append_docker_label_values,
}
use e_bpf_lens.Export.Survey.{same_uid, same_uid_iff, uid_eq, GaugeVec, Labelling, label_values}

abbrev pub same_labels : List String → List String → Bool
same_labels [] [] = true
same_labels [] (y ∷ ys) = false
same_labels (x ∷ xs) [] = false
same_labels (x ∷ xs) (y ∷ ys) = x == y && same_labels xs ys

pub same_labels_iff : (xs ys : List String) → (same_labels xs ys ≡ true) ↔ (xs ≡ ys)
same_labels_iff [] [] = ground arith
same_labels_iff [] (y ∷ ys) = ground arith
same_labels_iff (x ∷ xs) [] = ground arith
same_labels_iff (x ∷ xs) (y ∷ ys) = ground (arith, eq_iff x y, same_labels_iff xs ys)

-- What the vector of gauges promises.
pub record IsGaugeVec {G : Type 0} (gauges : GaugeVec G) : Type 0 where
  pub has-set_one :
      (g : G) (l m : List String)
      → gauges.has (gauges.set_one l g) m ≡ (same_labels l m || gauges.has g m)
  pub has-delete_label_values :
      (g : G) (l m : List String)
      → gauges.has (gauges.delete_label_values l g) m ≡ (not (same_labels l m) && gauges.has g m)

-- The service's identity among its labels.
uid_in : List String → ServiceUid
uid_in (host ∷ host_name ∷ name ∷ namespace ∷ instance_id ∷ rest) = record {
  name = name;
  namespace = namespace;
  instance_id = instance_id;
}
uid_in labels = record { name = ""; namespace = ""; instance_id = "" }

uid_in-label_values : (s : Labelling) (a : Attrs) → uid_in (label_values s a) ≡ a.uid
unfolding uid_in label_values append_k8s_label_values_service append_docker_label_values
uid_in-label_values s a = elim (Bool-cases s.kube_enabled) [
  | inl k ↦ elim (Bool-cases s.docker_enabled) [ inl d ↦ rw (k, d) refl | inr d ↦ rw (k, d) refl ]
  | inr k ↦ elim (Bool-cases s.docker_enabled) [ inl d ↦ rw (k, d) refl | inr d ↦ rw (k, d) refl ]
]

pub label_values_inj :
    (s : Labelling) (a b : Attrs) → label_values s a ≡ label_values s b → a.uid ≡ b.uid
label_values_inj s a b e = sym (uid_in-label_values s a) ∙ ap uid_in e ∙ uid_in-label_values s b

-- Services of different identities have different labels.
pub labels_differ :
    (s : Labelling) (a b : Attrs)
    → same_uid a.uid b.uid ≡ false
    → same_labels (label_values s a) (label_values s b) ≡ false
labels_differ s a b d = ground (
  arith,
  label_values_inj s a b,
  same_uid_iff a.uid b.uid,
  same_labels_iff (label_values s a) (label_values s b),
)

module _ {G : Type 0} (gauges : GaugeVec G) (s : Labelling) where
  -- Each service stands under its own identity and is exported with its labels.
  abbrev pub IsExported : Dict ServiceUid Attrs → G → Type 0
  IsExported m g =
      (uid : ServiceUid) (a : Attrs)
      → get uid m ≡ some a
      → (a.uid ≡ uid) × (gauges.has g (label_values s a) ≡ true)

  -- Nothing but the services of the map is exported.
  abbrev pub IsSourced : Dict ServiceUid Attrs → G → Type 0
  IsSourced m g =
      (l : List String)
      → gauges.has g l ≡ true
      → (uid : ServiceUid) × (a : Attrs) × (get uid m ≡ some a) × (label_values s a ≡ l)

  module _ (law : IsGaugeVec gauges) where
    pub IsExported-delete :
        (m : Dict ServiceUid Attrs) (g : G) (uid : ServiceUid) (a : Attrs)
        → IsExported m g
        → a.uid ≡ uid
        → IsExported (delete uid m) (gauges.delete_label_values (label_values s a) g)
    IsExported-delete m g uid a h e = λ q b found.
        let x = get-delete uid q m in
        let held = h q b (ground (arith, x)) in
        let other : same_uid a.uid b.uid ≡ false =
          ground (arith, same_uid_iff uid q, same_uid_iff a.uid b.uid) in
        (
          held.0,
          ground (
            arith,
            law.has-delete_label_values g (label_values s a) (label_values s b),
            labels_differ s a b,
          ),
        )

    pub IsExported-put :
        (m : Dict ServiceUid Attrs) (g : G) (a : Attrs)
        → IsExported m g
        → IsExported (put a.uid a m) (gauges.set_one (label_values s a) g)
    IsExported-put m g a h = λ q b found.
        let x = get-put a.uid q a m in
        let shown = law.has-set_one g (label_values s a) (label_values s b) in
        elim (Bool-cases (same_uid a.uid q)) [
          | inl same ↦
              let e : a ≡ b = ground (arith, x) in
              (
                ap (λ (t : Attrs). t.uid) (sym e) ∙ (same_uid_iff a.uid q).0 same,
                ground (
                  arith,
                  shown,
                  ap (label_values s) e,
                  same_labels_iff (label_values s a) (label_values s b),
                ),
              )
          | inr other ↦ let held = h q b (ground (arith, x)) in (held.0, ground (arith, shown))
        ]

    pub IsSourced-delete :
        (m : Dict ServiceUid Attrs) (g : G) (uid : ServiceUid) (a : Attrs)
        → IsSourced m g
        → get uid m ≡ some a
        → IsSourced (delete uid m) (gauges.delete_label_values (label_values s a) g)
    IsSourced-delete m g uid a h e = λ l shown.
        let law' = law.has-delete_label_values g (label_values s a) l in
        let (q, b, found, labelled) = h l (ground (arith, law')) in
        let x = get-delete uid q m in
        (
          q,
          b,
          ground (arith, x, same_uid_iff uid q, same_labels_iff (label_values s a) l),
          labelled,
        )

    pub IsSourced-put :
        (m : Dict ServiceUid Attrs) (g : G) (a : Attrs)
        → IsSourced m g
        → get a.uid m ≡ none
        → IsSourced (put a.uid a m) (gauges.set_one (label_values s a) g)
    IsSourced-put m g a h fresh = λ l shown.
        let law' = law.has-set_one g (label_values s a) l in
        elim (Bool-cases (same_labels (label_values s a) l)) [
          | inl same ↦ (
            a.uid,
            a,
            ground (arith, get-put a.uid a.uid a m, same_uid_iff a.uid a.uid),
            (same_labels_iff (label_values s a) l).0 same,
          )
          | inr other ↦
              let (q, b, found, labelled) = h l (ground (arith, law')) in
              (q, b, ground (arith, get-put a.uid q a m, same_uid_iff a.uid q), labelled)
        ]
