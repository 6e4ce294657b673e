-- ===== src/Mqttx/Topics.antt =====
-- Splitting a topic and joining its segments are inverse, for segments without a slash.
use Prim.Native.Char.{Char, code}
use Prim.Native.String.{String, [], ◌∷◌}
use mathlib.Core.List.{List}
use text.Mathlib.TextEquality.{Char-path}
use text.Mathlib.TextLemmas.{nil-append, cons-append, append-nil, append_assoc}
use yunmao.Base.{
  append, ◌≡◌, ◌≢◌, refl, sym, ◌∙◌, ap, arith, nat_eq, ==_of_ne, Bool-cases, inl, inr, eq_iff,
}
use yunmao.Mqttx.{push, split_from, split_topic}

abbrev slash : Char
slash = "/"

abbrev pub NoSlash : String → Type 0
NoSlash [] = Unit {0}
NoSlash (c ∷ s) = (code c ≢ b'/') × NoSlash s

abbrev pub AllNoSlash : List String → Type 0
AllNoSlash List.[] = Unit {0}
AllNoSlash (List.◌∷◌ p ps) = NoSlash p × AllNoSlash ps

-- `strings.Join(parts, "/")`
abbrev pub join : List String → String
join List.[] = ""
join (List.◌∷◌ p List.[]) = p
join (List.◌∷◌ p (List.◌∷◌ q ps)) = append p (append "/" (join (List.◌∷◌ q ps)))

NoSlash-push : (s : String) (c : Char) → NoSlash s → code c ≢ b'/' → NoSlash (push s c)
NoSlash-push [] c h n = rw nil-append (n, tt)
NoSlash-push (d ∷ s) c (m, h) n = rw cons-append (m, NoSlash-push s c h n)

split_from-NoSlash : (cur s : String) → NoSlash cur → AllNoSlash (split_from cur s)
unfolding split_from
split_from-NoSlash cur [] h = (h, tt)
split_from-NoSlash cur (c ∷ s) h =
    ground
      (arith, split_from-NoSlash "" s tt, split_from-NoSlash (push cur c) s, NoSlash-push cur c h)

join-cons :
    (p cur s : String)
    → join (List.◌∷◌ p (split_from cur s)) ≡ append p (append "/" (join (split_from cur s)))
unfolding split_from
join-cons p cur [] = refl
join-cons p cur (c ∷ s) = ground (arith, join-cons p (push cur c) s)

-- A character with the number of a slash is a slash.
is_slash : (c : Char) → code c ≡ b'/' → c ≡ slash
is_slash c h = Char-path c slash h

one-append : (c : Char) (s : String) → append (c ∷ "") s ≡ c ∷ s
one-append c s = cons-append c "" s ∙ ap (λ t. c ∷ t) (nil-append s)

slash-append : (c : Char) (s : String) → code c ≡ b'/' → append "/" s ≡ c ∷ s
slash-append c s h = one-append slash s ∙ ap (λ d. d ∷ s) (sym (is_slash c h))

push-append : (cur s : String) (c : Char) → append (push cur c) s ≡ append cur (c ∷ s)
push-append cur s c = append_assoc cur (c ∷ "") s ∙ ap (append cur) (one-append c s)

-- A text is its segments, joined by slashes.
pub join-split_from : (cur s : String) → join (split_from cur s) ≡ append cur s
unfolding split_from
join-split_from cur [] = sym (append-nil cur)
join-split_from cur (c ∷ s) = elim (Bool-cases (nat_eq (code c) b'/')) [
  | inl e ↦
      let at_slash = slash-append c s (ground arith) in
      rw e (
        join-cons cur "" s
        ∙ ap (λ t. append cur (append "/" t)) (join-split_from "" s ∙ nil-append s)
        ∙ ap (append cur) at_slash)
  | inr e ↦ rw e (join-split_from (push cur c) s ∙ push-append cur s c)
]

-- A segment without a slash is read to its end.
split_from_segment :
    (cur p : String) → NoSlash p → split_from cur p ≡ List.◌∷◌ (append cur p) List.[]
unfolding split_from
split_from_segment cur [] h = ap (λ t. List.◌∷◌ t List.[]) (sym (append-nil cur))
split_from_segment cur (c ∷ p) (n, h) =
    ground (arith, split_from_segment (push cur c) p h, push-append cur p c)

split_from-append :
    (cur p rest : String)
    → NoSlash p
    → split_from cur (append p (append "/" rest)) ≡ List.◌∷◌ (append cur p) (split_from "" rest)
unfolding split_from
split_from-append cur [] rest h =
    rw (nil-append (append "/" rest), one-append slash rest, append-nil cur) refl
split_from-append cur (c ∷ p) rest (n, h) =
    rw cons-append (ground (arith, split_from-append (push cur c) p rest h, push-append cur p c))

split_from-join :
    (p : String) (ps : List String)
    → AllNoSlash (List.◌∷◌ p ps)
    → split_from "" (join (List.◌∷◌ p ps)) ≡ List.◌∷◌ p ps
split_from-join p List.[] (h, _) =
    split_from_segment "" p h ∙ ap (λ t. List.◌∷◌ t List.[]) (nil-append p)
split_from-join p (List.◌∷◌ q ps) (h, hs) =
    split_from-append "" p (join (List.◌∷◌ q ps)) h
    ∙ rw (nil-append p, split_from-join q ps hs) refl

-- Joining the segments of a topic gives the topic, and no segment has a slash; the segments of the
-- joined text are the given ones, if there is one, none has a slash, and the text is not empty.
pub split_topic-join :
    (t p : String) (ps : List String)
    → AllNoSlash (List.◌∷◌ p ps)
    → join (List.◌∷◌ p ps) ≢ ""
    → (join (split_topic t) ≡ t)
      × AllNoSlash (split_topic t)
      × (split_topic (join (List.◌∷◌ p ps)) ≡ List.◌∷◌ p ps)
unfolding split_topic
split_topic-join t p ps h full =
    let whole = join-split_from "" t ∙ nil-append t in
    let parts = split_from-NoSlash "" t tt in
    (
      ground (arith, whole, eq_iff t ""),
      ground (arith, parts),
      rw (==_of_ne _ "" full) (split_from-join p ps h),
    )
