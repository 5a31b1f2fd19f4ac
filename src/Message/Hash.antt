-- ===== src/Message/Hash.antt =====
-- `GetMessageHashing`: what its hash tells apart.
use grandma_scheduling_servi.Prelude.{◌≡◌, arith, ok}
use grandma_scheduling_servi.Prelude.Int.{ℤ}
use grandma_scheduling_servi.Prelude.Text.{Bytes, Lacks}
use grandma_scheduling_servi.Strconv.Parts.{append-injective}
use grandma_scheduling_servi.Message.{Obj, Hashes, hashed_text, get_message_hashing}

-- Two messages whose endpoints hold no newline get the same hash, by whichever of the three
-- algorithms, only if they agree in endpoint and body; this where the hash functions do not collide
-- at the two texts that are hashed.
pub get_message_hashing-injective :
    (h : Hashes) (o p : Obj) (algorithm : ℤ) {digest : Bytes}
    → (h.md5 (hashed_text o) ≡ h.md5 (hashed_text p) → hashed_text o ≡ hashed_text p)
    → (h.sha1 (hashed_text o) ≡ h.sha1 (hashed_text p) → hashed_text o ≡ hashed_text p)
    → (h.sha256 (hashed_text o) ≡ h.sha256 (hashed_text p) → hashed_text o ≡ hashed_text p)
    → Lacks b'\n' o.endpoint
    → Lacks b'\n' p.endpoint
    → get_message_hashing h o algorithm ≡ ok digest
    → get_message_hashing h p algorithm ≡ ok digest
    → (o.endpoint ≡ p.endpoint) × (o.message_body ≡ p.message_body)
unfolding get_message_hashing
get_message_hashing-injective h o p algorithm md5 sha1 sha256 ho hp eo ep =
    append-injective o.endpoint p.endpoint o.message_body p.message_body b'\n' ho hp (ground arith)
