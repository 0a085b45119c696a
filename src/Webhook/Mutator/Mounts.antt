-- ===== src/Webhook/Mutator/Mounts.antt =====
-- The injected volume and mount are there afterwards, and those of the pod's author stay.
use e_bpf_lens.Prelude.{Bool, true, not, some, List, [], ◌∷◌, ◌≡◌, arith, ◌==◌, find, keep}
use e_bpf_lens.Webhook.Kube.{Volume, VolumeMount}
use e_bpf_lens.Webhook.Mutator.{inject_volume_name, place_volume, place_mount}

abbrev pub is_inject_volume : Volume → Bool
is_inject_volume v = v.name == inject_volume_name

abbrev pub is_inject_mount : VolumeMount → Bool
is_inject_mount m = m.name == inject_volume_name

pub find-place_volume :
    (v : Volume) (vs : List Volume)
    → is_inject_volume v ≡ true
    → find is_inject_volume (place_volume v vs) ≡ some v
unfolding place_volume
find-place_volume v [] h = rw h
find-place_volume v (w ∷ ws) h = ground (arith, find-place_volume v ws h)

pub keep-place_volume :
    (v : Volume) (vs : List Volume)
    → is_inject_volume v ≡ true
    → keep (λ w. not (is_inject_volume w)) (place_volume v vs)
      ≡ keep (λ w. not (is_inject_volume w)) vs
unfolding place_volume
keep-place_volume v [] h = rw h
keep-place_volume v (w ∷ ws) h = ground (arith, keep-place_volume v ws h)

pub find-place_mount :
    (m : VolumeMount) (ms : List VolumeMount)
    → is_inject_mount m ≡ true
    → find is_inject_mount (place_mount m ms) ≡ some m
unfolding place_mount
find-place_mount m [] h = rw h
find-place_mount m (n ∷ ns) h = ground (arith, find-place_mount m ns h)

pub keep-place_mount :
    (m : VolumeMount) (ms : List VolumeMount)
    → is_inject_mount m ≡ true
    → keep (λ n. not (is_inject_mount n)) (place_mount m ms)
      ≡ keep (λ n. not (is_inject_mount n)) ms
unfolding place_mount
keep-place_mount m [] h = rw h
keep-place_mount m (n ∷ ns) h = ground (arith, keep-place_mount m ns h)
