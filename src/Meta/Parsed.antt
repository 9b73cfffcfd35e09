-- ===== src/Meta/Parsed.antt =====
-- What Parse accepts, by the parts of the text.
use mathlib.Core.Path.{subst}
use d9s.Base.{
  ℕ, ◌≡◌, ◌≢◌, ◌∙◌, refl, sym, ap, Bool, true, List, [], ◌∷◌, ◌++◌, Option, none, some, Bytes,
  codes, ◌⊎◌, inl, inr, equal, equal_iff, if◌then◌else◌, Bool-cases, has_prefix, has_prefix-append,
  trim_space, trim_prefix, arith, take, drop,
}
use d9s.Meta.{
  Command, CommandInfo, commands, span, is_verb_byte, read_verb, read_arg, known_in, known,
  starts_blank, with_arg, with_verb, parse_trimmed, parse, ParseError,
}

-- A verb is one of the commands listed.
pub record IsListed (verb : Bytes) (cs : List CommandInfo) : Type 0 where
  pub earlier : List CommandInfo
  pub command : CommandInfo
  pub later : List CommandInfo
  pub is_list : cs ≡ earlier ++ command ∷ later
  pub is_verb : command.verb ≡ verb

-- The text of a command, without the blanks around it: a backslash, a listed verb, a plus or none, and
-- then nothing or a blank with the argument, behind which there are only blanks.
pub record IsCommand (s : Bytes) (c : Command) : Type 0 where
  pub behind : Bytes
  pub tail : Bytes
  pub is_text : s ≡ codes "\\" ++ (c.verb ++ ((if c.plus then codes "+" else []) ++ behind))
  pub has_verb : c.verb ≢ []
  pub listed : IsListed c.verb commands
  pub apart : starts_blank behind ≡ true
  pub argument : read_arg (trim_space behind) ≡ some (c.arg, tail)
  pub ended : trim_space tail ≡ []

known_in-IsListed :
    (cs : List CommandInfo) (verb : Bytes) → known_in cs verb ≡ true → IsListed verb cs
unfolding known_in
known_in-IsListed [] verb h = cc
known_in-IsListed (c ∷ cs) verb h = elim (Bool-cases (equal c.verb verb)) [
  | inl e ↦ record {
    earlier = [];
    command = c;
    later = cs;
    is_list = refl;
    is_verb = (equal_iff c.verb verb).0 e;
  }
  | inr e ↦
      let rest = known_in-IsListed cs verb (rw e at h) in
      record {
        earlier = c ∷ rest.earlier;
        command = rest.command;
        later = rest.later;
        is_list = ap (λ xs. c ∷ xs) rest.is_list;
        is_verb = rest.is_verb;
      }
]

span-append : (test : ℕ → Bool) (s : Bytes) → (span test s).0 ++ (span test s).1 ≡ s
unfolding span
span-append test [] = refl
span-append test (c ∷ s) = elim (Bool-cases (test c)) [
  | inl e ↦ rw e (ap (λ t. c ∷ t) (span-append test s))
  | inr e ↦ rw e refl
]

take-drop_one : (s : Bytes) → take 1 s ++ drop 1 s ≡ s
take-drop_one [] = refl
take-drop_one (c ∷ s) = refl

-- A verb as read_verb takes it from what span gives.
verb_parts :
    (rest : Bytes) (r : Bytes × Bytes)
    → r.0 ++ r.1 ≡ rest
    → let v : Bytes × Bytes = elim r.0 [
      | [] ↦ if has_prefix rest (codes "?") then (take 1 rest, drop 1 rest) else ([], rest)
      | c ∷ v ↦ (c ∷ v, r.1)
    ] in
      v.0 ++ v.1 ≡ rest
verb_parts rest ([], tail) h = elim (Bool-cases (has_prefix rest (codes "?"))) [
  | inl e ↦ rw e (take-drop_one rest)
  | inr e ↦ rw e refl
]
verb_parts rest (c ∷ v, tail) h = h

read_verb-append : (rest : Bytes) → (read_verb rest).0 ++ (read_verb rest).1 ≡ rest
unfolding read_verb
read_verb-append rest = verb_parts rest (span is_verb_byte rest) (span-append is_verb_byte rest)

plus-append :
    (rest : Bytes)
    → rest ≡ (if has_prefix rest (codes "+") then codes "+" else []) ++ trim_prefix rest (codes "+")
unfolding trim_prefix
plus-append rest = elim (Bool-cases (has_prefix rest (codes "+"))) [
  | inl e ↦ rw e (has_prefix-append rest (codes "+") e)
  | inr e ↦ rw e refl
]

with_arg-IsCommand :
    (s verb behind : Bytes) (plus : Bool) (o : Option (Bytes × Bytes)) (c : Command)
    → with_arg s verb plus o ≡ inr c
    → read_arg (trim_space behind) ≡ o
    → (c.verb ≡ verb)
      × (c.plus ≡ plus)
      × (tail : Bytes) × (read_arg (trim_space behind) ≡ some (c.arg, tail))
      × (trim_space tail ≡ [])
unfolding with_arg
with_arg-IsCommand s verb behind plus none c h k = cc
with_arg-IsCommand s verb behind plus (some (arg, tail)) c h k =
    elim (Bool-cases (equal (trim_space tail) [])) [
      | inl e ↦
          let same : ◌≡◌ {A = ParseError ⊎ Command}
              (inr (record { verb = verb; plus = plus; arg = arg })) (inr c) =
            rw e at h in
          let q : record { verb = verb; plus = plus; arg = arg } ≡ c = cc in
          (
            ap (λ x. x.verb) (sym q),
            ap (λ x. x.plus) (sym q),
            tail,
            k ∙ ap (λ x. some (x.arg, tail)) q,
            (equal_iff (trim_space tail) []).0 e,
          )
      | inr e ↦ cc (rw e at h)
    ]

with_verb-IsCommand :
    (s rest verb : Bytes) (c : Command)
    → with_verb s verb rest ≡ inr c
    → IsCommand (codes "\\" ++ (verb ++ rest)) c
unfolding with_verb known
with_verb-IsCommand s rest verb c h =
    let behind = trim_prefix rest (codes "+") in
    let plus = has_prefix rest (codes "+") in
    elim (Bool-cases (equal verb [])) [
      | inl e ↦ cc (rw e at h)
      | inr e ↦ elim (Bool-cases (known_in commands verb)) [
        | inr f ↦ cc (rw (e, f) at h)
        | inl f ↦ elim (Bool-cases (starts_blank behind)) [
          | inr g ↦ cc (rw (e, f, g) at h)
          | inl g ↦
              let (v, p, tail, a, t) =
                with_arg-IsCommand s verb behind plus (read_arg (trim_space behind)) c
                  (rw (e, f, g) at h) refl in
              record {
                behind = behind;
                tail = tail;
                is_text = rw (v, p) (ap (λ r. codes "\\" ++ (verb ++ r)) (plus-append rest));
                has_verb = λ n. ground (arith, e, (equal_iff verb []).1 (sym v ∙ n));
                listed = rw v (known_in-IsListed commands verb f);
                apart = g;
                argument = a;
                ended = t;
              }
        ]
      ]
    ]

-- What Parse accepts is the text of the command that it returns: without the blanks around it, it is a
-- backslash, the verb, which is one of the commands listed, a plus if the command has one, and nothing or a
-- blank with an argument that reads as the one of the command, behind which only blanks are left.
pub parse-IsCommand :
    (stmt : Bytes) (c : Command) → parse stmt ≡ inr c → IsCommand (trim_space stmt) c
unfolding parse parse_trimmed
parse-IsCommand stmt c h = elim (Bool-cases (has_prefix (trim_space stmt) (codes "\\"))) [
  | inl e ↦
      let s = trim_space stmt in
      let text : codes "\\" ++ (read_verb (drop 1 s)).0 ++ (read_verb (drop 1 s)).1 ≡ s =
        ap (λ r. codes "\\" ++ r) (read_verb-append (drop 1 s))
        ∙ sym (has_prefix-append s (codes "\\") e) in
      subst (λ t. IsCommand t c) text
        (with_verb-IsCommand s (read_verb (drop 1 s)).1 (read_verb (drop 1 s)).0 c (rw e at h))
  | inr e ↦ cc (rw e at h)
]
