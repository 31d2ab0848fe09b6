-- ===== src/Swarm/Paths.antt =====
-- The text of a relative path that src/p2p/manifest.rs makes of safe components.
use Prim.Native.Char.{code}
use Prim.Native.String.{◌++◌ as ◌+++◌}
use text.Mathlib.TextLemmas.{
  nil-append, cons-append, append-nil, append_assoc, append-ne-nil_of_right_ne-nil,
}
use paradown.Prelude.{
  ℕ, String, Bool, true, false, ◌≡◌, ◌≢◌, refl, ap, sym, ◌∙◌, List, [], ◌∷◌, arith, All, ◌||◌, ◌==◌,
  Bool-cases, inl, inr, str_eq, eq_iff,
}
use paradown.Failure.{ok}
use paradown.Domain.Spec.{ends_with}
use paradown.Text.{contains_char}
use paradown.Swarm.Files.{is_unsafe, is_absolute, join, push_components}

-- Each component behind a slash.
abbrev pub behind_slashes : List String → String
behind_slashes [] = ""
behind_slashes (c ∷ cs) = "/" +++ (c +++ behind_slashes cs)

-- The components with a slash between each two.
abbrev pub slashed : List String → String
slashed [] = ""
slashed (c ∷ cs) = c +++ behind_slashes cs

begins_with : ℕ → String → Bool
begins_with k String.[] = false
begins_with k (String.◌∷◌ ch s) = code ch == k

rest_of : String → String
rest_of String.[] = ""
rest_of (String.◌∷◌ ch s) = s

ends_with-contains_char : (c : String) → contains_char b'/' c ≡ false → ends_with c "/" ≡ false
unfolding ends_with contains_char begins_with
ends_with-contains_char String.[] h = refl
ends_with-contains_char (String.◌∷◌ ch s) h = elim (Bool-cases (str_eq (String.◌∷◌ ch s) "/")) [
  | inl e ↦
      let slash : (code ch == b'/') ≡ true = ap (begins_with b'/') ((eq_iff _ _).0 e) in
      ground (arith, slash, h)
  | inr e ↦ rw e (ends_with-contains_char s (ground (arith, h)))
]

ends_with-append :
    (s t : String) → str_eq t "" ≡ false → ends_with t "/" ≡ false → ends_with (s +++ t) "/" ≡ false
unfolding ends_with rest_of
ends_with-append String.[] t n h = rw (nil-append t) h
ends_with-append (String.◌∷◌ ch s) t n h =
    let t_not_empty : t ≢ "" = λ e. cc in
    rw (cons-append ch s t) (elim (Bool-cases (str_eq (String.◌∷◌ ch (s +++ t)) "/")) [
      | inl e ↦ absurd (append-ne-nil_of_right_ne-nil s t_not_empty (ap rest_of ((eq_iff _ _).0 e)))
      | inr e ↦ rw e (ends_with-append s t n h)
    ])

-- A component can be put behind such a path with a slash.
abbrev IsOpen : String → Type 0
IsOpen path = (str_eq path "" ≡ false) × (ends_with path "/" ≡ false)

safe-IsOpen : (c : String) → is_unsafe c ≡ false → IsOpen c
unfolding is_unsafe
safe-IsOpen c h = (ground (arith, h), ends_with-contains_char c (ground (arith, h)))

pub safe-is_absolute : (c : String) → is_unsafe c ≡ false → is_absolute c ≡ false
unfolding is_unsafe contains_char
safe-is_absolute String.[] h = refl
safe-is_absolute (String.◌∷◌ ch s) h = ground (arith, h)

join-IsOpen :
    (path c : String)
    → IsOpen path
    → is_unsafe c ≡ false
    → (join path c ≡ path +++ ("/" +++ c)) × IsOpen (join path c)
unfolding join
join-IsOpen path c o h =
    let closed : (str_eq path "" || ends_with path "/") ≡ false = ground (arith, o.0, o.1) in
    let c_open = safe-IsOpen c h in
    let c_not_empty : c ≢ "" = λ e. ground (arith, eq_iff c "", c_open.0, e) in
    let slash_c = append-ne-nil_of_right_ne-nil "/" c_not_empty in
    let filled = append-ne-nil_of_right_ne-nil path slash_c in
    rw (safe-is_absolute c h, closed)
      (
        refl,
        (
          ground (arith, eq_iff (path +++ ("/" +++ c)) "", filled),
          ends_with-append path ("/" +++ c) (ground (arith, eq_iff ("/" +++ c) "", slash_c))
              (ends_with-append "/" c c_open.0 c_open.1),
        ),
      )

push_components-behind :
    (cs : List String) (path relative : String)
    → All (λ c. is_unsafe c ≡ false) cs
    → IsOpen path
    → push_components cs path ≡ ok relative
    → relative ≡ path +++ behind_slashes cs
unfolding push_components
push_components-behind [] path relative safe o e = sym (append-nil path ∙ (ground (arith, e)))
push_components-behind (c ∷ cs) path relative safe o e =
    let j = join-IsOpen path c o safe.0 in
    let rest = rw safe.0 at e in
    push_components-behind cs (join path c) relative safe.1 j.1 rest
    ∙ ap (λ p. p +++ behind_slashes cs) j.0
    ∙ append_assoc path ("/" +++ c) (behind_slashes cs)
    ∙ ap (λ t. path +++ t) (append_assoc "/" c (behind_slashes cs))

pub push_components-slashed :
    (c : String) (cs : List String) (relative : String)
    → All (λ c. is_unsafe c ≡ false) (c ∷ cs)
    → push_components (c ∷ cs) "" ≡ ok relative
    → relative ≡ slashed (c ∷ cs)
unfolding push_components join
push_components-slashed c cs relative safe e =
    let pushed = rw (safe.0, safe-is_absolute c safe.0, nil-append c) at e in
    push_components-behind cs c relative safe.1 (safe-IsOpen c safe.0) pushed
