-- ===== src/Repo/Signing.antt =====
-- packages/danaus/src/actors/repo/commit.ts: commits and their encoding.
use danaus.Prelude.{String, Option}
use danaus.SeqEvent.{Bytes}
use danaus.Repo.{Libraries, Unsigned, Commit}

pub record EncodedCommit : Type 0 where
  pub commit : Commit
  pub bytes : Bytes
  pub cid : String

module _ {Rec : Type 0} (L : Libraries Rec) where
  unfoldable pub encode_commit : String → String → String → EncodedCommit
  encode_commit did data_cid rev =
      let unsigned : Unsigned = record { did = did; data_cid = data_cid; rev = rev } in
      let commit : Commit = record {
        unsigned = unsigned;
        sig = L.sign (L.encode_unsigned unsigned);
      } in
      let bytes = L.encode_signed commit in
      record { commit = commit; bytes = bytes; cid = L.create_cid bytes }

  -- `none` where the bytes are no commit.
  unfoldable pub decode_commit : Bytes → Option Commit
  decode_commit bytes = L.decode_signed bytes
