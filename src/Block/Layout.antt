-- ===== src/Block/Layout.antt =====
-- The constants of ta/include/trust_chain_ta.h and the offsets of the structs of ta/block/block.h:
-- every field is four-byte aligned, so the structs have no padding.
use trust_chain.Base.{ℕ}

abbrev pub max_key_length : ℕ
max_key_length = 512

abbrev pub max_hash_length : ℕ
max_hash_length = 64

abbrev pub max_signature_length : ℕ
max_signature_length = 512

-- struct base_block
abbrev pub block_height : ℕ
block_height = 0

abbrev pub parent_hash : ℕ
parent_hash = 4

abbrev pub op : ℕ
op = 68

abbrev pub sigkey : ℕ
sigkey = 72

abbrev pub signature : ℕ
signature = 584

abbrev pub trust_seconds : ℕ
trust_seconds = 1096

abbrev pub trust_millis : ℕ
trust_millis = 1100

abbrev pub tee_sig : ℕ
tee_sig = 1104

-- struct access_block, behind its base
abbrev pub role : ℕ
role = 1616

abbrev pub pubkey : ℕ
pubkey = 1620

abbrev pub access_block_size : ℕ
access_block_size = 2132

-- struct contribution_block, behind its base
abbrev pub commit_hash : ℕ
commit_hash = 1616

abbrev pub contribution_block_size : ℕ
contribution_block_size = 1680
