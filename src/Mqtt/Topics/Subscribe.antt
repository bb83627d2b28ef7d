-- ===== src/Mqtt/Topics/Subscribe.antt =====
-- What a broker reads from a SUBSCRIBE payload.
use mgl03_homekit_bridge.Common.{
  ℕ, zero, suc, ◌+◌, ◌*◌, ◌/◌, ◌%◌, ◌<◌, ◌≡◌, refl, Option, none, some, List, [], ◌∷◌, ◌++◌, Bytes,
  length, take, drop, take-length-append, drop-length-append, arith, All,
}
use mgl03_homekit_bridge.Mqtt.Wire.{write_utf8}
use mgl03_homekit_bridge.Mqtt.Topics.{subscribe_topics}

-- A broker's reading: a length, so many bytes of a topic filter, a requested QoS, and so on.
filter_before : Bytes → ℕ → Option (List (Bytes × ℕ)) → Option (List (Bytes × ℕ))
filter_before t q none = none
filter_before t q (some fs) = some ((t, q) ∷ fs)

next_filter : (Bytes → Option (List (Bytes × ℕ))) → Bytes → Bytes → Option (List (Bytes × ℕ))
next_filter more t [] = none
next_filter more t (q ∷ rest) = filter_before t q (more rest)

pub read_filters : ℕ → Bytes → Option (List (Bytes × ℕ))
unfolding filter_before next_filter
read_filters zero s = none
read_filters (suc fuel) [] = some []
read_filters (suc fuel) (a ∷ []) = none
read_filters (suc fuel) (a ∷ b ∷ s) =
    next_filter (read_filters fuel) (take (a * 256 + b) s) (drop (a * 256 + b) s)

abbrev pub with_qos_0 : List Bytes → List (Bytes × ℕ)
with_qos_0 [] = []
with_qos_0 (t ∷ ts) = (t, 0) ∷ with_qos_0 ts

pub uint16_value : (n : ℕ) → n < 65536 → n % 65536 / 256 % 256 * 256 + n % 65536 % 256 ≡ n
uint16_value n h = omega arith

read_filters-write_utf8 :
    (fuel : ℕ) (t rest : Bytes) (fs : List (Bytes × ℕ))
    → length t < 65536
    → read_filters fuel rest ≡ some fs
    → read_filters (suc fuel) (write_utf8 t ++ (0 ∷ rest)) ≡ some ((t, 0) ∷ fs)
unfolding read_filters write_utf8
read_filters-write_utf8 fuel t rest fs h e =
    rw (
      uint16_value (length t) h,
      take-length-append t (0 ∷ rest),
      drop-length-append t (0 ∷ rest),
      e,
    )

-- A broker reads from the payload exactly the topics of the subscription, in order, each at QoS 0,
-- if they are shorter than 65536 bytes.
pub read_filters-subscribe_topics :
    (ts : List Bytes) (fuel : ℕ)
    → All (λ t. length t < 65536) ts
    → length ts < fuel
    → read_filters fuel (subscribe_topics ts) ≡ some (with_qos_0 ts)
unfolding subscribe_topics
read_filters-subscribe_topics ts zero h lt = absurd (omega arith)
read_filters-subscribe_topics [] (suc fuel) h lt = unfold read_filters in refl
read_filters-subscribe_topics (t ∷ ts) (suc fuel) (ht, hs) lt =
    read_filters-write_utf8 fuel t (subscribe_topics ts) (with_qos_0 ts) ht
      (read_filters-subscribe_topics ts fuel hs (omega arith))
