-- ===== src/Protocol/MyProtocol/Bytes.antt =====
-- Numbers in network byte order: what `htonl`, `htons`, `ntohl` and `ntohs` do around `memcpy`.
use echo_net.Base.{ℕ, ◌+◌, ◌*◌, ◌/◌, ◌%◌, ◌^◌, ◌<◌, ◌≡◌, List, [], ◌∷◌, arith}

pub be_from : ℕ → List ℕ → ℕ
be_from acc [] = acc
be_from acc (x ∷ xs) = be_from (acc * 256 + x) xs

-- The number that the bytes spell, the most significant first.
unfoldable pub be : List ℕ → ℕ
unfolding be_from
be xs = be_from 0 xs

unfoldable pub bytes_16 : ℕ → List ℕ
bytes_16 n = n / 256 % 256 ∷ n % 256 ∷ []

unfoldable pub bytes_32 : ℕ → List ℕ
bytes_32 n = n / 16777216 % 256 ∷ n / 65536 % 256 ∷ n / 256 % 256 ∷ n % 256 ∷ []

pub be-bytes_16 : (n : ℕ) → n < 2 ^ 16 → be (bytes_16 n) ≡ n
unfolding be bytes_16
be-bytes_16 n h = omega arith

pub be-bytes_32 : (n : ℕ) → n < 2 ^ 32 → be (bytes_32 n) ≡ n
unfolding be bytes_32
be-bytes_32 n h = omega arith
