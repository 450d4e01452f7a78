-- ===== src/Logger/Config/Started.antt =====
-- What the logger of src/utils/logger.c starts with, once its settings are validated.
use mathlib.Core.Path.{subst}
use schaufel.Common.{
  ℕ, ◌/◌, ◌%◌, ◌<◌, ◌≡◌, refl, sym, ap, ◌∙◌, true, Option, none, some, List, ltb, ◌==◌, codes,
  Bool-cases, Option-cases, ◌⊎◌, inl, inr, arith, some_eq,
}
use schaufel.JsonExport.{same_string}
use schaufel.Metadata.Assoc.{same_string_eq}
use schaufel.Logger.Config.{
  Config, to_lower, mode_or_default, validate_file, validate_ident, known_facility,
  validate_facility, validate_type, validate_lower, facility_value, logger_validate, Target,
  to_file, to_fd, to_null, to_syslog, crashes, logs, find_facility, open_file, open_facility,
  open_syslog, string_of_member, init_type, init_named, logger_init,
}

-- A target for a type in lower case, with the settings after the validation.
abbrev pub Fits : List (List ℕ × ℕ) → List ℕ → Config → Target → Type 0
Fits rows s c k =
    ((s ≡ codes "file")
      × (f : List ℕ) × (c.file ≡ some f)
      × (mode_or_default c.mode < 512)
      × (k ≡ to_file f (mode_or_default c.mode)))
    ⊎ ((s ≡ codes "stdout") × (k ≡ to_fd 1))
    ⊎ ((s ≡ codes "stderr") × (k ≡ to_fd 2))
    ⊎ ((s ≡ codes "null") × (k ≡ to_null))
    ⊎ ((s ≡ codes "syslog")
        × (f : List ℕ) × (i : List ℕ) × (v : ℕ) × (c.facility ≡ some (some f))
        × (c.ident ≡ some (some i))
        × (find_facility rows f ≡ some v)
        × (k ≡ to_syslog i v))

-- The logger starts with such a target, or it looks for a facility that does not exist.
abbrev pub Starts : List (List ℕ × ℕ) → List ℕ → Config → Type 0
Starts rows s c =
    ((k : Target) × (logger_init rows true c ≡ logs k) × Fits rows s c k)
    ⊎ ((s ≡ codes "syslog")
        × (f : List ℕ) × (c.facility ≡ some (some f))
        × (find_facility rows f ≡ none)
        × (logger_init rows true c ≡ crashes))

validate_file-some :
    (c d : Config)
    → validate_file c ≡ some d
    → (c ≡ d) × (f : List ℕ) × (c.file ≡ some f) × (mode_or_default c.mode < 512)
validate_file-some c d h =
    let m = mode_or_default c.mode in
    elim (Bool-cases (m / 512 % 8 == 0)) [
      | inr e ↦ let k = rw e at h in cc
      | inl e ↦ elim (Bool-cases (ltb 4095 m)) [
        | inl g ↦ let k = rw (e, g) at h in cc
        | inr g ↦ elim (Option-cases c.file) [
          | inl n ↦ let k : ◌≡◌ {A = Option Config} none (some d) = ground (arith, h) in cc
          | inr (f, y) ↦
              let k : some c ≡ some d = ground (arith, h) in (some_eq k, f, y, ground (arith, e, g))
        ]
      ]
    ]

validate_ident-some :
    (c d : Config) (f : List ℕ)
    → c.facility ≡ some (some f)
    → validate_ident c c.ident ≡ some d
    → (d.type_name ≡ c.type_name)
      × (d.facility ≡ some (some f))
      × (i : List ℕ) × (d.ident ≡ some (some i))
validate_ident-some c d f e h = elim (Option-cases c.ident) [
  | inl n ↦
      let k = some_eq (sym (ap (validate_ident c) n) ∙ h) in
      (
        sym (ap (λ x. x.type_name) k),
        sym (ap (λ x. x.facility) k) ∙ e,
        codes "schaufel",
        sym (ap (λ x. x.ident) k),
      )
  | inr (o, y) ↦ elim (Option-cases o) [
    | inl n ↦ let k = sym (ap (validate_ident c) (y ∙ ap some n)) ∙ h in cc
    | inr (i, z) ↦
        let t = y ∙ ap some z in
        let k = some_eq (sym (ap (validate_ident c) t) ∙ h) in
        (
          sym (ap (λ x. x.type_name) k),
          sym (ap (λ x. x.facility) k) ∙ e,
          i,
          sym (ap (λ x. x.ident) k) ∙ t,
        )
  ]
]

validate_facility-some :
    (rows : List (List ℕ × ℕ)) (c d : Config)
    → validate_facility rows c c.facility ≡ some d
    → (d.type_name ≡ c.type_name)
      × (f : List ℕ) × (d.facility ≡ some (some f))
      × (i : List ℕ) × (d.ident ≡ some (some i))
validate_facility-some rows c d h = elim (Option-cases c.facility) [
  | inl n ↦
      let k = sym (ap (validate_facility rows c) n) ∙ h in
      let (t, a, i, b) =
        validate_ident-some (record c { facility = some (some (codes "daemon")) }) d
          (codes "daemon") refl k in
      (t, codes "daemon", a, i, b)
  | inr (o, y) ↦ elim (Option-cases o) [
    | inl n ↦ let k = sym (ap (validate_facility rows c) (y ∙ ap some n)) ∙ h in cc
    | inr (f, z) ↦
        let here = y ∙ ap some z in
        let k = sym (ap (validate_facility rows c) here) ∙ h in
        elim (Option-cases (facility_value rows f)) [
          | inl n ↦ let w = sym (ap (known_facility c) n) ∙ k in cc
          | inr (v, w) ↦
              let (t, a, i, b) =
                validate_ident-some c d f here (sym (ap (known_facility c) w) ∙ k) in
              (t, f, a, i, b)
        ]
  ]
]

-- The search for the facility, once there are a facility and an identification.
start_syslog :
    (rows : List (List ℕ × ℕ)) (c : Config) (f i : List ℕ)
    → c.type_name ≡ some (codes "syslog")
    → c.facility ≡ some (some f)
    → c.ident ≡ some (some i)
    → logger_init rows true c ≡ open_facility i (find_facility rows f)
unfolding logger_init
start_syslog rows c f i t a b =
    ap (init_named rows true c) t
    ∙ (ap (λ o. open_syslog rows (string_of_member o) (string_of_member c.ident)) a
        ∙ ap (λ o. open_syslog rows (some f) (string_of_member o)) b)

typed :
    (c d : Config) (s name : List ℕ)
    → d.type_name ≡ c.type_name
    → c.type_name ≡ some s
    → s ≡ name
    → d.type_name ≡ some name
typed c d s name same t is = same ∙ (t ∙ ap some is)

syslog-Starts :
    (rows : List (List ℕ × ℕ)) (c d : Config) (s : List ℕ)
    → c.type_name ≡ some s
    → s ≡ codes "syslog"
    → validate_facility rows c c.facility ≡ some d
    → Starts rows s d
syslog-Starts rows c d s t is h =
    let (same, f, a, i, b) = validate_facility-some rows c d h in
    let run = start_syslog rows d f i (typed c d s (codes "syslog") same t is) a b in
    elim (Option-cases (find_facility rows f)) [
      | inl n ↦ inr (is, f, a, n, run ∙ ap (open_facility i) n)
      | inr (v, y) ↦ inl (
        to_syslog i v,
        run ∙ ap (open_facility i) y,
        inr (inr (inr (inr (is, f, i, v, a, b, y, refl)))),
      )
    ]

file-Starts :
    (rows : List (List ℕ × ℕ)) (c d : Config) (s : List ℕ)
    → c.type_name ≡ some s
    → s ≡ codes "file"
    → validate_file c ≡ some d
    → Starts rows s d
unfolding logger_init
file-Starts rows c d s t is h =
    let (same, f, y, m) = validate_file-some c d h in
    let td = typed c d s (codes "file") (ap (λ x. x.type_name) (sym same)) t is in
    let fd : d.file ≡ some f = ap (λ x. x.file) (sym same) ∙ y in
    inl (
      to_file f (mode_or_default d.mode),
      ap (init_named rows true d) td ∙ ap (open_file true d) fd,
      inl (is, f, fd, subst (λ x. mode_or_default x.mode < 512) same m, refl),
    )

-- A type that needs no other settings.
plain-Starts :
    (rows : List (List ℕ × ℕ)) (c d : Config) (s name : List ℕ) (k : Target)
    → c.type_name ≡ some s
    → s ≡ name
    → some c ≡ some d
    → init_type rows true d name ≡ logs k
    → Fits rows s d k
    → Starts rows s d
unfolding logger_init
plain-Starts rows c d s name k t is h run fits =
    let td = typed c d s name (ap (λ x. x.type_name) (sym (some_eq h))) t is in
    inl (k, ap (init_named rows true d) td ∙ run, fits)

validate_type-Starts :
    (rows : List (List ℕ × ℕ)) (c d : Config) (s : List ℕ)
    → c.type_name ≡ some s
    → validate_type rows c s ≡ some d
    → Starts rows s d
validate_type-Starts rows c d s t h = elim (Bool-cases (same_string s (codes "file"))) [
  | inl e ↦ file-Starts rows c d s t (same_string_eq s (codes "file") e) (rw e at h)
  | inr e ↦ elim (Bool-cases (same_string s (codes "stdout"))) [
    | inl g ↦
        let is = same_string_eq s (codes "stdout") g in
        plain-Starts rows c d s (codes "stdout") (to_fd 1) t is (rw (e, g) at h) refl
          (inr (inl (is, refl)))
    | inr g ↦ elim (Bool-cases (same_string s (codes "stderr"))) [
      | inl i ↦
          let is = same_string_eq s (codes "stderr") i in
          plain-Starts rows c d s (codes "stderr") (to_fd 2) t is (rw (e, g, i) at h) refl
            (inr (inr (inl (is, refl))))
      | inr i ↦ elim (Bool-cases (same_string s (codes "null"))) [
        | inl j ↦
            let is = same_string_eq s (codes "null") j in
            plain-Starts rows c d s (codes "null") to_null t is (rw (e, g, i, j) at h) refl
              (inr (inr (inr (inl (is, refl)))))
        | inr j ↦ elim (Bool-cases (same_string s (codes "syslog"))) [
          | inl k ↦
              syslog-Starts rows c d s t (same_string_eq s (codes "syslog") k)
                (rw (e, g, i, j, k) at h)
          | inr k ↦ let z = rw (e, g, i, j, k) at h in cc
        ]
      ]
    ]
  ]
]

-- Settings with a type in lower case that `logger_validate` accepts, with the files that can be opened:
-- `logger_init` starts the logger with the target of its type and does not exit, a file with the
-- given mode or 0640, which is below 01000; but if the facility for syslog is none that exists, it
-- reads a name through NULL.
pub logger_init_lem :
    (rows : List (List ℕ × ℕ)) (c d : Config) (s : List ℕ)
    → c.type_name ≡ some s
    → to_lower s ≡ s
    → logger_validate rows c ≡ some d
    → Starts rows s d
unfolding logger_validate
logger_init_lem rows c d s t lower h =
    let k = sym (ap (validate_lower rows c) t) ∙ h in
    validate_type-Starts rows c d s t (sym (ap (validate_type rows c) lower) ∙ k)
