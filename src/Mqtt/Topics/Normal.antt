-- ===== src/Mqtt/Topics/Normal.antt =====
-- normalizedTopics keeps each trimmed topic once.
use mgl03_homekit_bridge.Common.{
  ◌≡◌, refl, ◌∙◌, Bool, true, false, not, ◌&&◌, ◌||◌, List, [], ◌∷◌, ◌++◌, Bytes, eq_bytes,
  eq_bytes_iff, is_empty, trim_space, if◌then◌else◌, arith, map,
}
use mgl03_homekit_bridge.Mqtt.Topics.{has_topic, normalized_loop, normalized_topics}

-- No topic stands in the list twice.
pub distinct : List Bytes → Bool
distinct [] = true
distinct (t ∷ ts) = not (has_topic t ts) && distinct ts

has_topic-append :
    (t : Bytes) (xs ys : List Bytes) → has_topic t (xs ++ ys) ≡ has_topic t xs || has_topic t ys
unfolding has_topic
has_topic-append t [] ys = refl
has_topic-append t (x ∷ xs) ys = ground (arith, has_topic-append t xs ys)

distinct-snoc :
    (t : Bytes) (xs : List Bytes)
    → has_topic t xs ≡ false
    → distinct xs ≡ true
    → distinct (xs ++ (t ∷ [])) ≡ true
unfolding distinct has_topic
distinct-snoc t [] h d = refl
distinct-snoc t (x ∷ xs) h d =
    ground (
      arith,
      has_topic-append x xs (t ∷ []),
      distinct-snoc t xs,
      eq_bytes_iff t x,
      eq_bytes_iff x t,
    )

-- What the loop keeps, for every start of the list.
keep : List Bytes → Bytes → List Bytes
keep out topic = if is_empty topic || has_topic topic out then out else out ++ (topic ∷ [])

keep-distinct : (out : List Bytes) (t : Bytes) → distinct out ≡ true → distinct (keep out t) ≡ true
unfolding keep
keep-distinct out t d = ground (arith, distinct-snoc t out)

has_topic-keep :
    (s t : Bytes) (out : List Bytes)
    → has_topic s (keep out t) ≡ has_topic s out || (eq_bytes s t && not (is_empty t))
unfolding keep has_topic
has_topic-keep s t out = ground (arith, has_topic-append s out (t ∷ []), eq_bytes_iff s t)

normalized_loop-distinct :
    (ts out : List Bytes) → distinct out ≡ true → distinct (normalized_loop ts out) ≡ true
unfolding normalized_loop
normalized_loop-distinct [] out d = d
normalized_loop-distinct (t ∷ ts) out d =
    normalized_loop-distinct ts _ (unfold keep in keep-distinct out (trim_space t) d)

or_false : (a b : Bool) → a ≡ a || (false && not b)
or_false a b = ground arith

keep_step :
    (s t : Bytes) (ts out : List Bytes)
    → has_topic s (keep out (trim_space t)) || (has_topic s (map trim_space ts) && not (is_empty s))
      ≡ has_topic s out || (has_topic s (map trim_space (t ∷ ts)) && not (is_empty s))
unfolding has_topic
keep_step s t ts out =
    ground (arith, has_topic-keep s (trim_space t) out, eq_bytes_iff s (trim_space t))

has_topic-normalized_loop :
    (s : Bytes) (ts out : List Bytes)
    → has_topic s (normalized_loop ts out)
      ≡ has_topic s out || (has_topic s (map trim_space ts) && not (is_empty s))
unfolding normalized_loop keep
has_topic-normalized_loop s [] out = unfold has_topic in or_false (has_topic s out) (is_empty s)
has_topic-normalized_loop s (t ∷ ts) out =
    let later = has_topic-normalized_loop s ts (keep out (trim_space t)) in
    later ∙ keep_step s t ts out

-- The topics of a subscription are pairwise distinct, and they are exactly the non-empty ones among
-- the configured topics without their surrounding space.
pub normalized_topics_lem :
    (topics : List Bytes) (s : Bytes)
    → (distinct (normalized_topics topics) ≡ true)
      × (has_topic s (normalized_topics topics)
          ≡ has_topic s (map trim_space topics) && not (is_empty s))
unfolding normalized_topics has_topic
normalized_topics_lem topics s = (
  normalized_loop-distinct topics [] (unfold distinct in refl),
  has_topic-normalized_loop s topics [],
)
