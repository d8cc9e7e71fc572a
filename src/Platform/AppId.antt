-- ===== src/Platform/AppId.antt =====
-- `_APP_ID_RE` of main.py and `_ID_RE` of ephemeral_runner.py, `re.compile(r"^[a-zA-Z0-9_-]{1,64}$")`
-- under `match`. In Python `$` also matches before a newline that ends the text.
use belgrade_os.Base.{
  ℕ, zero, suc, ◌≤◌, String, ◌≡◌, ◌≢◌, ◌⊎◌, inl, inr, refl, ap, ◌↔◌, Bool-cases, Bool, true, false,
  ◌&&◌, ◌||◌, List, [], ◌∷◌, ◌++◌, arith, leb, nat_eq, if◌then◌else◌, length, All, All-append,
}
use belgrade_os.Base.Text.{codes}

-- `[a-zA-Z0-9_-]`
abbrev pub is_id_char : ℕ → Bool
is_id_char c =
    leb b'a' c && leb c b'z'
    || leb b'A' c && leb c b'Z'
    || leb b'0' c && leb c b'9'
    || nat_eq c b'_'
    || nat_eq c b'-'

abbrev newline : ℕ
newline = 10

-- `$` at the rest of the text
abbrev at_end : List ℕ → Bool
at_end [] = true
at_end (c ∷ []) = nat_eq c newline
at_end _ = false

-- At most `room` more characters of the class, then the end.
unfoldable pub match_id : ℕ → List ℕ → Bool
match_id room [] = true
match_id zero (c ∷ s) = at_end (c ∷ s)
match_id (suc room) (c ∷ s) =
    let rest = match_id room s in if is_id_char c then rest else at_end (c ∷ s)

-- The class occurs at least once. (The class holds no newline, so no backtracking is needed.)
unfoldable pub match_app_id : List ℕ → Bool
match_app_id [] = false
match_app_id (c ∷ s) = is_id_char c && match_id 63 s

unfoldable pub is_app_id : String → Bool
is_app_id s = match_app_id (codes s)

abbrev pub IsIdChar : ℕ → Type 0
IsIdChar c = is_id_char c ≡ true

-- Characters of the class, and perhaps one newline after them.
abbrev pub IsMatched : List ℕ → List ℕ → Type 0
IsMatched id s = All IsIdChar id × ((s ≡ id) ⊎ (s ≡ id ++ newline ∷ []))

at_end-shape : (c : ℕ) (s : List ℕ) → at_end (c ∷ s) ≡ true → c ∷ s ≡ newline ∷ []
at_end-shape c [] h = ground arith
at_end-shape c (d ∷ s) h = cc

IsMatched-cons : (c : ℕ) (id s : List ℕ) → IsIdChar c → IsMatched id s → IsMatched (c ∷ id) (c ∷ s)
IsMatched-cons c id s e (chars, inl same) = ((e, chars), inl (ap (λ r. c ∷ r) same))
IsMatched-cons c id s e (chars, inr more) = ((e, chars), inr (ap (λ r. c ∷ r) more))

match_id_sound :
    (room : ℕ) (s : List ℕ)
    → match_id room s ≡ true
    → (id : List ℕ) × (length id ≤ room) × IsMatched id s
unfolding match_id
match_id_sound room [] h = ([], omega arith, (tt, inl refl))
match_id_sound zero (c ∷ s) h = ([], omega arith, (tt, inr (at_end-shape c s h)))
match_id_sound (suc room) (c ∷ s) h = elim (Bool-cases (is_id_char c)) [
  | inl e ↦
      let (id, fits, matched) = match_id_sound room s (ground arith) in
      (c ∷ id, omega arith, IsMatched-cons c id s e matched)
  | inr e ↦ ([], omega arith, (tt, inr (at_end-shape c s (ground arith))))
]

match_id_complete :
    (room : ℕ) (id s : List ℕ) → length id ≤ room → IsMatched id s → match_id room s ≡ true
unfolding match_id
match_id_complete room [] s fits (_, inl e) = rw e
match_id_complete zero [] s fits (_, inr e) = rw e
match_id_complete (suc room) [] s fits (_, inr e) = rw e refl
match_id_complete zero (c ∷ id) s fits h = absurd (omega arith)
match_id_complete (suc room) (c ∷ id) s fits ((k, chars), inl e) =
    rw (e, k) (match_id_complete room id id (omega arith) (chars, inl refl))
match_id_complete (suc room) (c ∷ id) s fits ((k, chars), inr e) =
    rw (e, k) (match_id_complete room id (id ++ newline ∷ []) (omega arith) (chars, inr refl))

-- A text is accepted exactly if it is 1 to 64 characters of the class `[a-zA-Z0-9_-]`, or such
-- characters with one newline behind them.
pub match_app_id_iff :
    (s : List ℕ)
    → (match_app_id s ≡ true)
      ↔ ((id : List ℕ) × (1 ≤ length id) × (length id ≤ 64) × IsMatched id s)
unfolding match_app_id
match_app_id_iff s = (accepted s, λ p. complete s p.0 p.1 p.2 p.3)
  where
    accepted :
        (s : List ℕ)
        → match_app_id s ≡ true
        → (id : List ℕ) × (1 ≤ length id) × (length id ≤ 64) × IsMatched id s
    accepted [] h = cc
    accepted (c ∷ s) h =
        let (id, fits, matched) = match_id_sound 63 s (ground arith) in
        (c ∷ id, omega arith, omega arith, IsMatched-cons c id s (ground arith) matched)

    complete :
        (s id : List ℕ) → 1 ≤ length id → length id ≤ 64 → IsMatched id s → match_app_id s ≡ true
    complete s [] some_char fits h = absurd (omega arith)
    complete s (c ∷ id) some_char fits ((k, chars), inl e) =
        rw (e, k) (match_id_complete 63 id id (omega arith) (chars, inl refl))
    complete s (c ∷ id) some_char fits ((k, chars), inr e) =
        rw (e, k) (match_id_complete 63 id (id ++ newline ∷ []) (omega arith) (chars, inr refl))

-- No character of an accepted text is a slash or a dot, so it names no other directory.
pub match_app_id-stays : (s : List ℕ) → match_app_id s ≡ true → All (λ c. (c ≢ b'/') × (c ≢ b'.')) s
match_app_id-stays s h =
    let (id, _, _, matched) = (match_app_id_iff s).0 h in stays id s matched.0 matched.1
  where
    plain : (c : ℕ) → IsIdChar c → (c ≢ b'/') × (c ≢ b'.')
    plain c e = ground arith

    all_plain : (id : List ℕ) → All IsIdChar id → All (λ c. (c ≢ b'/') × (c ≢ b'.')) id
    all_plain [] h = tt
    all_plain (c ∷ id) (e, h) = (plain c e, all_plain id h)

    stays :
        (id s : List ℕ)
        → All IsIdChar id
        → (s ≡ id) ⊎ (s ≡ id ++ newline ∷ [])
        → All (λ c. (c ≢ b'/') × (c ≢ b'.')) s
    stays id s chars (inl e) = rw e (all_plain id chars)
    stays id s chars (inr e) =
        rw e (All-append _ id (newline ∷ []) (all_plain id chars) ((omega arith, omega arith), tt))
