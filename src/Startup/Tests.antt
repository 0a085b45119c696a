-- ===== src/Startup/Tests.antt =====
-- What a concrete configuration starts, and the theorem at it.
use e_bpf_lens.Prelude.{some, [], ◌∷◌, ◌≡◌, refl, insert, lookup}
use e_bpf_lens.Settings.Tests.{api, semver, answers, config, config_accepted}
use e_bpf_lens.Startup.{resource_labels}
use e_bpf_lens.Startup.Parts.{IsStarted, validated-IsStarted}

validated-IsStarted_example : IsStarted api semver answers config
validated-IsStarted_example = validated-IsStarted api semver answers config config_accepted

-- A deprecated label comes before those that are configured.
labelled :
    resource_labels "app" "" (some (("service.name", "name" ∷ []) ∷ []))
    ≡ ("service.name", "app" ∷ "name" ∷ []) ∷ []
unfolding resource_labels insert lookup
labelled = refl
