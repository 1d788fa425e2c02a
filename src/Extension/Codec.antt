-- ===== src/Extension/Codec.antt =====
-- internal/helper/sdk/vote_extension_codec.go. The packages for base64, zlib, zstd and protobuf are
-- a parameter, and so is fmt's "%X".
pub mod RoundTrip
use cvms.Base.{
  ℕ, String, List, [], ◌∷◌, if◌then◌else◌, ◌==◌, nat_eq, length, Option, Result, ok, err, panic,
  bind,
}

abbrev pub Bytes : Type 0
Bytes = List ℕ

-- One vote of cometabci.ExtendedCommitInfo, through its getters. A nil slice is `none` where the
-- code tells it from an empty one.
pub record AbciVote : Type 0 where
  pub validator_address : Bytes
  pub block_id_flag : ℕ
  pub vote_extension : Bytes
  pub extension_signature : Option Bytes

-- types.VoteExtension
pub record VoteExtension : Type 0 where
  pub address : String
  pub block_commit_flag : ℕ
  pub vote_extension : Bytes
  pub signature : Option Bytes

pub record Packages : Type 0 where
  -- base64.StdEncoding.DecodeString
  pub base64_decode : String → Result Bytes
  -- zlib.NewReader and io.ReadAll
  pub zlib_read : Bytes → Result Bytes
  -- zstd's DecodeAll
  pub zstd_decode_all : Bytes → Result Bytes
  -- ExtendedCommitInfo's Unmarshal and GetVotes
  pub unmarshal_votes : Bytes → Result (List AbciVote)
  -- fmt.Sprintf("%X", ..)
  pub upper_hex : Bytes → String

module _ (p : Packages) where
  unfoldable pub zlib_decompress : Bytes → Result Bytes
  zlib_decompress [] = ok []
  zlib_decompress (b ∷ bz) = p.zlib_read (b ∷ bz)

  abbrev pub or_else {ℓ} : {A : Type ℓ} → Result A → Result A → Result A
  or_else (ok a) other = ok a
  or_else (err e) other = other
  or_else panic other = panic

  -- zlib, or else zstd
  unfoldable pub must_decompress : Bytes → Result Bytes
  unfolding zlib_decompress
  must_decompress bz = or_else (zlib_decompress bz) (p.zstd_decode_all bz)

  unfoldable pub decode_extend_commit_info : Bytes → Result (List AbciVote)
  decode_extend_commit_info [] = ok []
  decode_extend_commit_info (b ∷ bz) = p.unmarshal_votes (b ∷ bz)

  -- BlockIDFlagUnknown (0) for a vote without an extension
  abbrev pub block_flag : AbciVote → ℕ
  block_flag v = if length v.vote_extension == 0 then 0 else v.block_id_flag

  unfoldable pub to_vote_extensions : List AbciVote → List VoteExtension
  to_vote_extensions [] = []
  to_vote_extensions (v ∷ votes) =
      record {
        address = p.upper_hex v.validator_address;
        block_commit_flag = block_flag v;
        vote_extension = v.vote_extension;
        signature = v.extension_signature;
      }
      ∷ to_vote_extensions votes

  unfoldable pub decoding_vote_extension_tx : String → Result (List VoteExtension)
  unfolding must_decompress decode_extend_commit_info to_vote_extensions
  decoding_vote_extension_tx tx = bind (p.base64_decode tx) λ ve_bytes.
      bind (must_decompress ve_bytes)
        λ bz. bind (decode_extend_commit_info bz) λ votes. ok (to_vote_extensions votes)
