-- ===== src/Desired/Counts.antt =====
-- What is read back of a desired count.
use canyonos.Prelude.{ℕ, ◌≡◌, ◌≢◌, refl, String, Option, some}
use canyonos.Prelude.Int.{ℤ, pos, pos_part}
use text.Mathlib.TextLemmas.{append_cancel_left, append_cancel_right}
use canyonos.Desired.{desired_key, RedisKeys, get_desired, set_desired}

desired_key-other : (a b : String) → a ≢ b → desired_key a ≢ desired_key b
unfolding desired_key
desired_key-other a b n e =
    n (append_cancel_right _ _ ":desired_replicas" (append_cancel_left "agent:" _ _ e))

module _ {S T : Type 0} (redis : RedisKeys S T) (text_of : ℕ → T) (int_of : T → Option ℤ)
    (int_of-text_of : (n : ℕ) → int_of (text_of n) ≡ some (pos n)) where
  -- If `int` reads back the text that the client writes for a number, a desired count reads back as
  -- it was set, or as 0 if it was negative, whatever the default; the counts of other agents stay.
  pub get_desired-set_desired :
      (agent : String) (count default : ℤ) (s : S)
      → (get_desired redis text_of int_of agent default
            (set_desired redis text_of int_of agent count s)
          ≡ pos (pos_part count))
        × ((other : String)
            → other ≢ agent
            → get_desired redis text_of int_of other default
                (set_desired redis text_of int_of agent count s)
              ≡ get_desired redis text_of int_of other default s)
  unfolding get_desired set_desired
  get_desired-set_desired agent count default s = (
    rw (redis.get-set (desired_key agent) (text_of (pos_part count)) s, get_desired)
        (rw (int_of-text_of (pos_part count)) refl),
    λ other n.
        rw
          (
            redis.get-set_other (desired_key other) (desired_key agent) (text_of (pos_part count)) s
                (desired_key-other other agent n),
            get_desired,
          )
          refl,
  )
