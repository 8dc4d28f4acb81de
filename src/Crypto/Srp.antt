-- ===== src/Crypto/Srp.antt =====
-- `SrpClient` of src/airplay_crypto.cpp: SRP-6a over the 3072-bit group, client side. The bignums
-- of Mbed TLS are numbers; its modular exponentiation is the backend's.
pub mod Agreement
use airplay2_sender_cpp.Base.{
  ◌>>=◌, ltb, ℕ, zero, suc, ◌+◌, ◌-◌, ◌*◌, ◌/◌, ◌%◌, ◌^◌, Bool, true, false, ◌&&◌, List, [], ◌∷◌,
  ◌++◌, Option, none, some, Bytes, codes, bit_or, bit_xor, length, ◌==◌, if◌then◌else◌, be_bytes,
  not,
}
use airplay2_sender_cpp.Crypto.Backend.{Backend}

-- RFC 5054 group 3072, the digits of `kSrpN3072`.
abbrev pub group_n : ℕ
group_n =
    0xFFFFFFFFFFFFFFFFC90FDAA22168C234C4C6628B80DC1CD129024E088A67CC74020BBEA63B139B22514A08798E3404DDEF9519B3CD3A431B302B0A6DF25F14374FE1356D6D51C245E485B576625E7EC6F44C42E9A637ED6B0BFF5CB6F406B7EDEE386BFB5A899FA5AE9F24117C4B1FE649286651ECE45B3DC2007CB8A163BF0598DA48361C55D39A69163FA8FD24CF5F83655D23DCA3AD961C62F356208552BB9ED529077096966D670C354E4ABC9804F1746C08CA18217C32905E462E36CE3BE39E772C180E86039B2783A2EC07A28FB5C55DF06F4C52C9DE2BCBF6955817183995497CEA956AE515D2261898FA051015728E5A8AAAC42DAD33170D04507A33A85521ABDF1CBA64ECFB850458DBEF0A8AEA71575D060C7DB3970F85A6E1E4C7ABF5AE8CDB0933D71E8C94E04A25619DCEE3D2261AD2EE6BF12FFA06D98A0864D87602733EC86A64521F2B18177B200CBBE117577A615D6C770988C0BAD946E208E24FA074E5AB3143DB5BFCE0FD108E4B82D120A93AD2CAFFFFFFFFFFFFFFFF

abbrev pub group_g : ℕ
group_g = 5

-- `kSrpNBytes`
abbrev pub n_bytes : ℕ
n_bytes = 384

-- `mbedtls_mpi_size`: the bytes of a number; the count bounds the rounds.
size_loop : ℕ → ℕ → ℕ
size_loop zero m = 0
size_loop (suc fuel) m = elim (m == 0) [ true ↦ 0 | false ↦ suc (size_loop fuel (m / 256)) ]

-- A number of the exchange stays below `2 ^ 8192`.
mpi_size : ℕ → ℕ
unfolding size_loop
mpi_size m = size_loop 1024 m

-- `mpiToBytes`: zero is one byte.
unfoldable pub mpi_to_bytes : ℕ → Bytes
unfolding mpi_size
mpi_to_bytes m = be_bytes (if mpi_size m == 0 then 1 else mpi_size m) m

-- `mpiToBytesPadded`; `none` is the exception for a number that does not fit.
unfoldable pub mpi_to_bytes_padded : ℕ → ℕ → Option Bytes
mpi_to_bytes_padded m len = if ltb m (256 ^ len) then some (be_bytes len m) else none

-- `bytesToMpi`
bytes_to_mpi_from : ℕ → Bytes → ℕ
bytes_to_mpi_from acc [] = acc
bytes_to_mpi_from acc (x ∷ bytes) = bytes_to_mpi_from (acc * 256 + x) bytes

unfoldable pub bytes_to_mpi : Bytes → ℕ
unfolding bytes_to_mpi_from
bytes_to_mpi bytes = bytes_to_mpi_from 0 bytes

xor_bytes : Bytes → Bytes → Bytes
xor_bytes (x ∷ xs) (y ∷ ys) = bit_xor x y ∷ xor_bytes xs ys
xor_bytes _ _ = []

-- The constant-time comparison: `diff` collects the differences of all bytes.
diff_bytes : ℕ → Bytes → Bytes → ℕ
diff_bytes diff (x ∷ xs) (y ∷ ys) = diff_bytes (bit_or diff (bit_xor x y)) xs ys
diff_bytes diff _ _ = diff

-- `SrpClient::Impl`, the fields that outlive a call.
pub record SrpClient : Type 0 where
  pub secret_a : ℕ
  pub public_a : ℕ
  pub public_b : ℕ
  pub shared_s : ℕ
  pub salt : Bytes
  pub session_key : Bytes
  pub proof_m1 : Bytes
  pub password : Bytes
  pub processed : Bool

module _ (b : Backend) where
  -- `hashTwoPadded`
  unfoldable pub hash_two_padded : ℕ → ℕ → Option Bytes
  unfolding mpi_to_bytes_padded
  hash_two_padded x y = do
    px ← mpi_to_bytes_padded x n_bytes
    py ← mpi_to_bytes_padded y n_bytes
    some (b.sha512 (px ++ py))

  -- `start`, with the random bytes of the draw `draw`.
  unfoldable pub srp_start : ℕ → Bytes → SrpClient
  unfolding bytes_to_mpi
  srp_start draw password =
      let secret = bytes_to_mpi (b.random draw 32) in
      record {
        secret_a = secret;
        public_a = b.exp_mod group_g secret group_n;
        public_b = 0;
        shared_s = 0;
        salt = [];
        session_key = [];
        proof_m1 = [];
        password = password;
        processed = false;
      }

  -- x = H(salt | H("Pair-Setup:" password))
  unfoldable pub srp_x : Bytes → Bytes → ℕ
  unfolding bytes_to_mpi
  srp_x salt password = bytes_to_mpi (b.sha512 (salt ++ b.sha512 (codes "Pair-Setup:" ++ password)))

  -- k = H(N | g) for `srp_hash group_n group_g`, u = H(A | B) for `srp_hash public_a public_b`
  unfoldable pub srp_hash : ℕ → ℕ → Option ℕ
  unfolding hash_two_padded bytes_to_mpi
  srp_hash x y = do h ← hash_two_padded x y; some (bytes_to_mpi h)

  -- S = (B - k g^x)^(a + u x) mod N. The difference may be negative; its remainder is not.
  unfoldable pub srp_s : ℕ → ℕ → ℕ → ℕ → ℕ → ℕ
  srp_s secret public_b k u x =
      let kgx = (k * b.exp_mod group_g x group_n) % group_n in
      let base = (public_b + group_n - kgx) % group_n in b.exp_mod base (secret + u * x) group_n

  -- M1 = H(H(N) xor H(g) | H(I) | salt | A | B | K)
  unfoldable pub srp_m1 : Bytes → ℕ → ℕ → Bytes → Bytes
  unfolding mpi_to_bytes xor_bytes
  srp_m1 salt public_a public_b key = b.sha512 (
      xor_bytes (b.sha512 (mpi_to_bytes group_n)) (b.sha512 (mpi_to_bytes group_g))
      ++ (b.sha512 (codes "Pair-Setup")
          ++ (salt ++ (mpi_to_bytes public_a ++ (mpi_to_bytes public_b ++ key)))))

  srp_done : SrpClient → Bytes → ℕ → ℕ → ℕ → SrpClient
  unfolding srp_x srp_s srp_m1 mpi_to_bytes
  srp_done c salt public_b k u =
      let shared = srp_s c.secret_a public_b k u (srp_x salt c.password) in
      let key = b.sha512 (mpi_to_bytes shared) in
      record c {
        salt = salt;
        public_b = public_b;
        shared_s = shared;
        session_key = key;
        proof_m1 = srp_m1 salt c.public_a public_b key;
        processed = true;
      }

  srp_agreed : SrpClient → Bytes → ℕ → Option (Bool × SrpClient)
  unfolding srp_hash srp_done
  srp_agreed c salt public_b = do
    k ← srp_hash group_n group_g
    u ← srp_hash c.public_a public_b
    some (true, srp_done c salt public_b k u)

  -- `process`: the flag is false for a server value that is zero modulo N; `none` is an exception.
  unfoldable pub srp_process : SrpClient → Bytes → Bytes → Option (Bool × SrpClient)
  unfolding srp_agreed bytes_to_mpi
  srp_process c salt server_b =
      let public_b = bytes_to_mpi server_b in
      let refused = record c { salt = salt; public_b = public_b } in
      let agreed = srp_agreed c salt public_b in
      if public_b % group_n == 0 then some (false, refused) else agreed

  -- `verifyServerProof`
  unfoldable pub srp_verify : SrpClient → Bytes → Bool
  unfolding mpi_to_bytes diff_bytes
  srp_verify c server_m2 =
      let m2 = b.sha512 (mpi_to_bytes c.public_a ++ (c.proof_m1 ++ c.session_key)) in
      if not c.processed
      then false
      else if not (length m2 == length server_m2)
      then false
      else diff_bytes 0 m2 server_m2 == 0
