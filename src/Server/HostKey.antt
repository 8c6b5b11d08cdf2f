-- ===== src/Server/HostKey.antt =====
-- internal/server/hostkey.go: the host key, which is loaded, or generated and kept.
pub mod Lasting
use sftp2s.Prelude.{
  ℕ, Bool, true, false, ◌&&◌, Bytes, bytes_eq, bytes_eq_refl, codes, Dict, lookup, lookup-put, put,
  Option, none, some, if◌then◌else◌,
}
use sftp2s.Result.{Error, Result, ok, err, message, not_exist, ◌>>=◌}

-- What this code takes from golang.org/x/crypto/ssh and the packages of keys: a generated key is in the
-- form of a PEM file.
pub record KeyLibrary : Type 1 where
  pub Signer : Type 0
  pub key_type : Signer → Bytes
  -- the signer is an ssh.AlgorithmSigner
  pub takes_algorithm : Signer → Bool
  -- SignWithAlgorithm: the data, and the algorithm
  pub sign : Signer → Bytes → Bytes → Result Bytes
  pub parse_private_key : Bytes → Result Signer
  pub generate_rsa : Result Bytes
  pub generate_ed25519 : Result Bytes

-- What goes wrong with the file: reading it, and writing it (with what is in it then).
pub record Faults : Type 0 where
  pub read_fault : Option Error
  pub write_fault : Option (Error × Bytes)

module _ (lib : KeyLibrary) where
  open lib use {Signer}

  -- ssh.Signer as the server has it: `restricted` is an rsaAlgorithmSigner.
  pub data HostKey : Type 0 where
    plain : Signer → HostKey
    restricted : Signer → HostKey

  -- SignWithAlgorithm
  unfoldable pub sign_with_algorithm : HostKey → Bytes → Bytes → Result Bytes
  sign_with_algorithm (plain s) data' algorithm = lib.sign s data' algorithm
  sign_with_algorithm (restricted s) data' algorithm =
      if bytes_eq algorithm (codes "ssh-rsa")
      then err (message "ssh-rsa (SHA-1) is disabled")
      else lib.sign s data' algorithm

  -- wrapRSASigner
  unfoldable pub wrap_rsa_signer : Signer → HostKey
  wrap_rsa_signer s =
      if bytes_eq (lib.key_type s) (codes "ssh-rsa") && lib.takes_algorithm s
      then restricted s
      else plain s

  module _ (faults : Faults) where
    unfoldable pub read_key : Bytes → Dict Bytes → Result Bytes
    read_key path files = elim faults.read_fault [
      | some e ↦ err e
      | none ↦ elim (lookup path files) [ none ↦ err not_exist | some pem ↦ ok pem ]
    ]

    -- loadHostKey
    unfoldable pub load_host_key : Bytes → Dict Bytes → Result HostKey
    unfolding read_key wrap_rsa_signer
    load_host_key path files = do
      pem ← read_key path files
      signer ← lib.parse_private_key pem
      ok (wrap_rsa_signer signer)

    -- os.WriteFile of a generated key, and what its caller makes of it
    unfoldable pub keep_key :
        (Signer → HostKey) → Bytes → Bytes → Dict Bytes → Result HostKey × Dict Bytes
    keep_key wrap path pem files = elim faults.write_fault [
      | some (e, written) ↦ (err e, put path written files)
      | none ↦ (lib.parse_private_key pem >>= λ s. ok (wrap s), put path pem files)
    ]

    -- generateRSAHostKey and generateEd25519HostKey
    unfoldable pub generate_with :
        Result Bytes → (Signer → HostKey) → Bytes → Dict Bytes → Result HostKey × Dict Bytes
    unfolding keep_key
    generate_with (err e) wrap path files = (err e, files)
    generate_with (ok pem) wrap path files = keep_key wrap path pem files

    -- generateHostKey
    unfoldable pub generate_host_key : Bytes → Bytes → Dict Bytes → Result HostKey × Dict Bytes
    unfolding generate_with wrap_rsa_signer
    generate_host_key path type files =
        if bytes_eq type (codes "rsa")
        then generate_with lib.generate_rsa wrap_rsa_signer path files
        else if bytes_eq type (codes "ed25519")
        then generate_with lib.generate_ed25519 plain path files
        else (err (message "unsupported host key type"), files)

    -- loadOrGenerateHostKey
    unfoldable pub load_or_generate_host_key :
        Bytes → Bytes → Dict Bytes → Result HostKey × Dict Bytes
    unfolding generate_host_key load_host_key
    load_or_generate_host_key path type files = elim (lookup path files) [
      | none ↦ generate_host_key path type files
      | some pem ↦ (load_host_key path files, files)
    ]
