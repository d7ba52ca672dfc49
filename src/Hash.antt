-- ===== src/Hash.antt =====
-- uint256 (src/util/uint256.h) as the number that its 32 bytes stand for, and util::hash
-- (src/util/util.h) over OpenSSL's SHA256, which is a parameter.
use xhubv.Prelude.{ℕ, Bytes, le_value}

-- SHA256 of the concatenation of the ranges, and SHA256 of that.
unfoldable pub hash : (Bytes → Bytes) → Bytes → ℕ
hash sha256 d = le_value (sha256 (sha256 d))
