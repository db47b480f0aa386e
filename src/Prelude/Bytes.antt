-- ===== src/Prelude/Bytes.antt =====
-- Facts about all bytes, checked by evaluation.
use papuga.Prelude.{ℕ, zero, suc, ◌<◌, ◌≡◌, Bool, true, ◌&&◌, arith}

up_to : (ℕ → Bool) → ℕ → Bool
up_to test zero = true
up_to test (suc bound) = up_to test bound && test bound

up_to-at : (test : ℕ → Bool) (bound c : ℕ) → c < bound → up_to test bound ≡ true → test c ≡ true
unfolding up_to
up_to-at test zero c below every = elim below [ ]
up_to-at test (suc bound) c below every = ground (arith, up_to-at test bound c)

-- Whether a test holds of every byte.
unfoldable pub on_bytes : (ℕ → Bool) → Bool
unfolding up_to
on_bytes test = up_to test 256

pub every_byte : (test : ℕ → Bool) (c : ℕ) → on_bytes test ≡ true → c < 256 → test c ≡ true
unfolding on_bytes
every_byte test c every below = up_to-at test 256 c below every
