-- ===== src/Events/Topic.antt =====
-- _topic_parts_match: AMQP topic bindings, where `*` is one word and `#` is any number of them.
use media_center.Prelude.{
  ◌≡◌, refl, String, Bool, true, false, ◌||◌, ◌&&◌, List, [], ◌∷◌, str_eq, eq_iff, arith,
  if◌then◌else◌, inl, inr, Bool-cases, ◌↔◌,
}

-- any(match(tail, routing_parts[index:]) for index in range(len(routing_parts) + 1))
abbrev any_suffix : (List String → Bool) → List String → Bool
any_suffix match [] = match []
any_suffix match (r ∷ rs) = match (r ∷ rs) || any_suffix match rs

abbrev match_word : String → (List String → Bool) → List String → Bool
match_word head match [] = false
match_word head match (r ∷ rs) = (str_eq head "*" || str_eq head r) && match rs

abbrev is_empty : List String → Bool
is_empty [] = true
is_empty _ = false

unfoldable pub topic_parts_match : List String → List String → Bool
topic_parts_match [] routing = is_empty routing
topic_parts_match (head ∷ tail) routing =
    let rest = topic_parts_match tail in
    if str_eq head "#"
    then (if is_empty tail then true else any_suffix rest routing)
    else match_word head rest routing

-- What a binding key means.
pub data Matches : List String → List String → Type 0 where
  done : Matches [] []
  word : {h r : String} {ts rs : List String} → h ≡ r → Matches ts rs → Matches (h ∷ ts) (r ∷ rs)
  star : {h r : String} {ts rs : List String} → h ≡ "*" → Matches ts rs → Matches (h ∷ ts) (r ∷ rs)
  hash_none : {h : String} {ts rs : List String} → h ≡ "#" → Matches ts rs → Matches (h ∷ ts) rs
  hash_some :
      {h r : String} {ts rs : List String}
      → h ≡ "#"
      → Matches (h ∷ ts) rs
      → Matches (h ∷ ts) (r ∷ rs)

any_here : (f : List String → Bool) (rs : List String) → f rs ≡ true → any_suffix f rs ≡ true
any_here f [] h = h
any_here f (r ∷ rs) h = ground (arith, h)

suffix_Matches :
    (h : String) (ts : List String)
    → h ≡ "#"
    → ((rs : List String) → topic_parts_match ts rs ≡ true → Matches ts rs)
    → (rs : List String) → any_suffix (topic_parts_match ts) rs ≡ true
    → Matches (h ∷ ts) rs
suffix_Matches h ts e sound [] m = hash_none e (sound [] m)
suffix_Matches h ts e sound (r ∷ rs) m = elim (Bool-cases (topic_parts_match ts (r ∷ rs))) [
  | inl t ↦ hash_none e (sound (r ∷ rs) t)
  | inr f ↦ hash_some e (suffix_Matches h ts e sound rs (ground (arith, m, f)))
]

all_words : (h : String) → h ≡ "#" → (rs : List String) → Matches (h ∷ []) rs
all_words h e [] = hash_none e done
all_words h e (r ∷ rs) = hash_some e (all_words h e rs)

Sound : List String → Type 0
Sound ts = (rs : List String) → topic_parts_match ts rs ≡ true → Matches ts rs

hash_Matches :
    (h : String) (ts : List String)
    → h ≡ "#"
    → Sound ts
    → (rs : List String)
    → (if is_empty ts then true else any_suffix (topic_parts_match ts) rs) ≡ true
    → Matches (h ∷ ts) rs
unfolding Sound
hash_Matches h [] e sound rs m = all_words h e rs
hash_Matches h (t ∷ ts) e sound rs m = suffix_Matches h (t ∷ ts) e sound rs m

word_Matches :
    (h : String) (ts : List String)
    → Sound ts
    → (rs : List String) → match_word h (topic_parts_match ts) rs ≡ true
    → Matches (h ∷ ts) rs
unfolding Sound
word_Matches h ts sound [] m = cc
word_Matches h ts sound (r ∷ rs) m = elim (Bool-cases (str_eq h "*")) [
  | inl t ↦ star ((eq_iff h "*").0 t) (sound rs (ground (arith, m)))
  | inr f ↦ word ((eq_iff h r).0 (ground (arith, m, f))) (sound rs (ground (arith, m)))
]

-- A binding key that the code matches means the routing key.
match-Matches : (bs : List String) → Sound bs
unfolding topic_parts_match Sound
match-Matches [] [] m = done
match-Matches [] (r ∷ rs) m = cc
match-Matches (h ∷ ts) rs m = elim (Bool-cases (str_eq h "#")) [
  | inl hash ↦
      hash_Matches h ts ((eq_iff h "#").0 hash) (match-Matches ts) rs (ground (arith, m, hash))
  | inr plain ↦ word_Matches h ts (match-Matches ts) rs (ground (arith, m, plain))
]

-- The code matches what the binding key means.
Matches-match : {bs rs : List String} → Matches bs rs → topic_parts_match bs rs ≡ true
unfolding topic_parts_match
Matches-match done = refl
Matches-match (word {h} {r} {ts} {rs} e m) =
    ground
      (arith, eq_iff h r, e, Matches-match m, any_here (topic_parts_match ts) rs (Matches-match m))
Matches-match (star {h} {r} {ts} {rs} e m) =
    ground (
      arith,
      eq_iff h "*",
      e,
      Matches-match m,
      any_here (topic_parts_match ts) rs (Matches-match m),
    )
Matches-match (hash_none {h} {ts} {rs} e m) =
    ground (
      arith,
      eq_iff h "#",
      e,
      Matches-match m,
      any_here (topic_parts_match ts) rs (Matches-match m),
    )
Matches-match (hash_some {h} {r} {ts} {rs} e m) = ground (arith, eq_iff h "#", e, Matches-match m)

-- `_topic_parts_match` decides the meaning of binding keys: `*` stands for one word, `#` for any
-- number of words, and any other word for itself.
pub topic_parts_match-Matches :
    (bs rs : List String) → (topic_parts_match bs rs ≡ true) ↔ Matches bs rs
unfolding Sound
topic_parts_match-Matches bs rs = (match-Matches bs rs, Matches-match)
