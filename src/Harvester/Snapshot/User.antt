-- ===== src/Harvester/Snapshot/User.antt =====
-- The user of a process is looked up once.
use e_bpf_lens.Prelude.{
  String, false, Option, none, some, ◌≡◌, refl, ◌⊎◌, inl, inr, is_empty, Bool-cases, Option-cases,
  split_once,
}
use e_bpf_lens.Int64.{ℤ}
use e_bpf_lens.Harvester.Snapshot.{
  named, from_uid, Answers, LinuxProcess, UserError, username_from_getent, uid_of, looked_up,
  username,
}

named-getent : (out : Option String) → is_empty (named (username_from_getent out)).0 ≡ false
unfolding username_from_getent
named-getent none = refl
named-getent (some out) = elim (Option-cases (split_once b':' out)) [
  | inl e ↦ rw (e, username_from_getent)
  | inr ((name, rest), e) ↦ elim (Bool-cases (is_empty name)) [
    | inl h ↦ rw (e, username_from_getent) (rw h)
    | inr h ↦ rw (e, username_from_getent) (rw h h)
  ]
]

named-uid :
    (getent : ℤ → Option String) (uid : UserError ⊎ ℤ) → is_empty (from_uid getent uid).0 ≡ false
named-uid getent (inl e) = refl
named-uid getent (inr uid) = named-getent (getent uid)

username-named : (sys : Answers) (p : LinuxProcess) → is_empty (username sys p).0.user ≡ false
unfolding username looked_up
username-named sys p = elim (Bool-cases (is_empty p.user)) [
  | inr h ↦ rw (h, username) h
  | inl h ↦ elim (Option-cases sys.username) [
    | inl e ↦ rw (h, username) (rw e (named-uid sys.getent (uid_of sys.uids)))
    | inr (name, e) ↦ elim (Bool-cases (is_empty name)) [
      | inl k ↦ rw (h, username) (rw e (rw k))
      | inr k ↦ rw (h, username) (rw e (rw k k))
    ]
  ]
]

username_known :
    (sys : Answers) (p : LinuxProcess) → is_empty p.user ≡ false → username sys p ≡ (p, none)
unfolding username
username_known sys p h = rw (h, username)

-- Whatever the system answers, the name that `Username` returns is not empty, and the next call
-- returns the same name without an error and changes nothing, whatever the system answers then. So
-- an error is reported once only, and the user stays unknown.
pub username_once :
    (sys later : Answers) (p : LinuxProcess)
    → (is_empty (username sys p).0.user ≡ false)
      × (username later (username sys p).0 ≡ ((username sys p).0, none))
username_once sys later p =
    (username-named sys p, username_known later (username sys p).0 (username-named sys p))
