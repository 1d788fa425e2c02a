-- ===== src/Extension/Codec/RoundTrip.antt =====
-- An extended commit that was marshalled, compressed with zlib or with zstd, and put in base64,
-- through the decoder.
use cvms.Base.{
  ◌≡◌, ◌≢◌, refl, sym, ap, ◌∙◌, String, List, [], ◌∷◌, ◌==◌, nat_eq, false, length, arith, Each,
  Error, ok, err,
}
use cvms.Extension.Codec.{
  Bytes, AbciVote, VoteExtension, Packages, block_flag, zlib_decompress, must_decompress,
  decode_extend_commit_info, to_vote_extensions, decoding_vote_extension_tx,
}

-- The other halves of the packages.
pub record Encoders : Type 0 where
  pub base64_encode : Bytes → String
  pub zlib_write : Bytes → Bytes
  pub zstd_write : Bytes → Bytes
  pub marshal_votes : List AbciVote → Bytes

pub data Compression : Type 0 where
  by_zlib by_zstd : Compression

abbrev pub compressed : Encoders → Compression → Bytes → Bytes
compressed e by_zlib b = e.zlib_write b
compressed e by_zstd b = e.zstd_write b

-- What the packages document, of the streams made from `votes`: each decoder undoes its encoder, a
-- compressed stream has a header, which tells zstd from zlib, and only a message without votes is
-- empty.
pub record Inverse (p : Packages) (e : Encoders) (votes : List AbciVote) : Type 0 where
  pub base64 :
      (c : Compression)
      → p.base64_decode (e.base64_encode (compressed e c (e.marshal_votes votes)))
        ≡ ok (compressed e c (e.marshal_votes votes))
  pub zlib : (b : Bytes) → p.zlib_read (e.zlib_write b) ≡ ok b
  pub zlib_header : (b : Bytes) → e.zlib_write b ≢ []
  pub zstd : (b : Bytes) → p.zstd_decode_all (e.zstd_write b) ≡ ok b
  pub zstd_header : (b : Bytes) → e.zstd_write b ≢ []
  pub not_zlib : (b : Bytes) → (x : Error) × (p.zlib_read (e.zstd_write b) ≡ err x)
  pub unmarshal : p.unmarshal_votes (e.marshal_votes votes) ≡ ok votes
  pub unmarshal_empty : e.marshal_votes votes ≡ [] → votes ≡ []

zlib_decompress_header : (p : Packages) (b : Bytes) → b ≢ [] → zlib_decompress p b ≡ p.zlib_read b
unfolding zlib_decompress
zlib_decompress_header p [] h = absurd (h refl)
zlib_decompress_header p (x ∷ b) h = refl

-- What a vote is read as: its address in upper-case hex, its extension and signature as they are,
-- and its own flag, but 0 for a vote without an extension.
pub data ReadAs (p : Packages) : AbciVote → VoteExtension → Type 0 where
  silent :
      (v : AbciVote) (x : VoteExtension)
      → v.vote_extension ≡ []
      → x ≡ record {
        address = p.upper_hex v.validator_address;
        block_commit_flag = 0;
        vote_extension = [];
        signature = v.extension_signature;
      }
      → ReadAs p v x
  spoken :
      (v : AbciVote) (x : VoteExtension)
      → v.vote_extension ≢ []
      → x ≡ record {
        address = p.upper_hex v.validator_address;
        block_commit_flag = v.block_id_flag;
        vote_extension = v.vote_extension;
        signature = v.extension_signature;
      }
      → ReadAs p v x

to_vote_extensions-ReadAs :
    (p : Packages) (votes : List AbciVote) → Each (ReadAs p) votes (to_vote_extensions p votes)
unfolding to_vote_extensions
to_vote_extensions-ReadAs p [] = tt
to_vote_extensions-ReadAs p (v ∷ votes) =
    (one v.vote_extension refl, to_vote_extensions-ReadAs p votes)
  where
    one :
        (b : Bytes)
        → v.vote_extension ≡ b
        → ReadAs p v (record {
          address = p.upper_hex v.validator_address;
          block_commit_flag = block_flag p v;
          vote_extension = v.vote_extension;
          signature = v.extension_signature;
        })
    one [] e = silent v _ e (rw e refl)
    one (x ∷ b) e =
        let filled : (length (x ∷ b) == 0) ≡ false = ground arith in
        spoken v _ (λ none. cc) (rw (e, filled) refl)

module _ (p : Packages) (e : Encoders) (votes : List AbciVote) (i : Inverse p e votes) where
  must_decompress-compressed :
      (c : Compression) (b : Bytes) → must_decompress p (compressed e c b) ≡ ok b
  unfolding must_decompress
  must_decompress-compressed by_zlib b =
      rw (zlib_decompress_header p (e.zlib_write b) (i.zlib_header b), i.zlib b)
  must_decompress-compressed by_zstd b =
      let (x, bad) = i.not_zlib b in
      rw (zlib_decompress_header p (e.zstd_write b) (i.zstd_header b), bad, i.zstd b)

  decode_marshalled :
      (b : Bytes) → e.marshal_votes votes ≡ b → decode_extend_commit_info p b ≡ ok votes
  unfolding decode_extend_commit_info
  decode_marshalled [] h = ap ok (sym (i.unmarshal_empty h))
  decode_marshalled (x ∷ b) h = ap p.unmarshal_votes (sym h) ∙ i.unmarshal

  -- For packages whose decoders undo their encoders on these votes: the votes, marshalled and
  -- compressed either way, come back from the decoder one by one and in order, each with its address
  -- in upper-case hex, its extension and its signature, and with its own flag, but the flag 0 if its
  -- extension is empty.
  pub decoding_vote_extension_tx-encoded :
      (c : Compression)
      → (found : List VoteExtension) × (decoding_vote_extension_tx p
            (e.base64_encode (compressed e c (e.marshal_votes votes)))
          ≡ ok found)
        × Each (ReadAs p) votes found
  unfolding decoding_vote_extension_tx
  decoding_vote_extension_tx-encoded c = (
    to_vote_extensions p votes,
    rw (
      i.base64 c,
      must_decompress-compressed c (e.marshal_votes votes),
      decode_marshalled (e.marshal_votes votes) refl,
    ),
    to_vote_extensions-ReadAs p votes,
  )
