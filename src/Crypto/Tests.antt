-- ===== src/Crypto/Tests.antt =====
-- Runs of the wrappers over the sample back end.
use airplay2_sender_cpp.Base.{◌+◌, ◌≡◌, refl, [], some, Bytes, codes, length, replicate}
use airplay2_sender_cpp.Crypto.Samples.{sample_backend, sample_laws}
use airplay2_sender_cpp.Crypto.Aead.{encrypt, decrypt, decrypt-encrypt}
use airplay2_sender_cpp.Crypto.Srp.{srp_s, group_g, group_n}
use airplay2_sender_cpp.Crypto.Srp.Agreement.{server_b, server_s, srp_s-server_s}

abbrev sample_key : Bytes
sample_key = replicate 32 1

decrypt-encrypt_example :
    (ct : Bytes) × (encrypt sample_backend sample_key (codes "PV-Msg02") (codes "hello") []
      ≡ some ct)
    × (length ct ≡ length (codes "hello") + 16)
    × (decrypt sample_backend sample_key (codes "PV-Msg02") ct [] ≡ some (codes "hello"))
decrypt-encrypt_example =
    decrypt-encrypt sample_backend sample_laws sample_key (codes "PV-Msg02") (codes "hello") [] refl

srp_s-server_s_example :
    srp_s sample_backend 6 (server_b 3 (sample_backend.exp_mod group_g 4 group_n) 5) 3 2 4
    ≡ server_s
        (sample_backend.exp_mod group_g 6 group_n)
        (sample_backend.exp_mod group_g 4 group_n)
        2
        5
srp_s-server_s_example = srp_s-server_s sample_backend (λ x e n. refl) 6 5 3 2 4
