-- ===== src/Webhook/Tests/Containers.antt =====
-- The namespace of a process, and its container.
use e_bpf_lens.Prelude.{String, true, some, List, [], ◌∷◌, ◌≡◌, refl, ◌==◌, if◌then◌else◌}
use e_bpf_lens.Webhook.Container.{ok, find_namespace, container_info_for_pid}
use e_bpf_lens.Webhook.Container.Namespace.{find_namespace-brackets}
use e_bpf_lens.Int64.{parse_uint}

find_namespace-brackets_example : find_namespace true (some "pid:[4026531836]") ≡ ok 4026531836
unfolding parse_uint
find_namespace-brackets_example =
    find_namespace-brackets "pid:" "4026531836" ""
      (refl, (refl, (refl, (refl, (refl, (refl, (refl, (refl, (refl, (refl, tt))))))))))
      (refl, (refl, (refl, (refl, (refl, (refl, (refl, (refl, (refl, (refl, tt)))))))))) tt tt

abbrev formats : List (String → List String)
formats =
    (λ entry. [])
    ∷ (λ entry. if entry == "0::/docker/ab" then "0::/docker/ab" ∷ "ab" ∷ [] else [])
    ∷ []

-- The first line that a format matches names the container.
container_found :
    container_info_for_pid formats (ok 7) (some ("1:cpu" ∷ "0::/docker/ab" ∷ []))
    ≡ ok (record { container_id = "ab"; pid_namespace = 7 })
unfolding container_info_for_pid
container_found = refl
