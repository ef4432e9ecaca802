-- ===== src/Tests/Demo.antt =====
-- A platform on which every call succeeds, and a table with one repository, for the tests.
use trust_chain.Base.{
  ℕ, ◌+◌, ◌%◌, ◌^◌, true, Bytes, codes, List, [], ◌∷◌, length, replicate, some, none, ok, Action,
  ◌==◌, if◌then◌else◌, arith,
}
use trust_chain.Memory.{Cells, Buffer, write, u32_bytes}
use trust_chain.Platform.{Platform, Handle}
use trust_chain.KeyList.{KeyList}
use trust_chain.Block.Digest.{IsDigest}
use trust_chain.Ta.State.{Repo, TeeParam, Ta, names_size, latest_hash}
use trust_chain.Ta.AccessControl
use trust_chain.Ta.Commit
use trust_chain.Ta.Reachable.{no_repositories}

-- A digest of 32 bytes that tells texts of different lengths apart.
abbrev pub demo_digest : Bytes → Bytes
demo_digest text = length text % 256 ∷ replicate 31 7

abbrev succeed : {A : Type 0} → A → Action ℕ A
succeed a w = (ok a, w)

-- The state of the platform is the number of handles that were given out.
abbrev give : Action ℕ Handle
give w = (ok (w + 1), w + 1)

abbrev pub demo : Platform ℕ
demo = record {
  hash_room = 72;
  malloc = λ a n w. (true, w);
  free = λ a w. w;
  get_system_time = λ w. ((5, 250), w);
  allocate_operation = λ a n. give;
  free_operation = λ h w. w;
  set_operation_key = λ o k. succeed tt;
  digest_do_final = λ o text. succeed (demo_digest text);
  asymmetric_sign_digest = λ o digest. succeed (171 ∷ 205 ∷ []);
  asymmetric_verify_digest = λ o digest sig. succeed tt;
  asymmetric_decrypt = λ o s. succeed (66 ∷ []);
  open_persistent_object = λ id. give;
  create_persistent_object = λ id o. give;
  close_object = λ h w. w;
  allocate_transient_object = λ t n. give;
  free_transient_object = λ h w. w;
  generate_key = λ h n. succeed tt;
  copy_object_attributes = λ h k. succeed tt;
  populate_transient_object = λ h n e. succeed tt;
  get_object_buffer_attribute = λ h a. succeed (3 ∷ []);
  pk_parse_public_key = λ text. give;
  pk_is_rsa = λ h w. true;
  pk_has_rsa = λ h w. true;
  pk_get_bitlen = λ h w. 2048;
  rsa_export = λ h. succeed (1 ∷ [], 3 ∷ []);
  mpi_write_binary = succeed;
  pk_free = λ w. w;
  rsa_import = λ n e. give;
  rsa_complete = λ h. succeed tt;
  pk_setup = λ h. succeed tt;
  pk_write_pubkey_der = λ h w. (48 ∷ [], w);
  base64_encode = succeed;
  rsa_free = λ w. w;
}

pub demo-IsDigest : IsDigest demo demo_digest
demo-IsDigest = record {
  computes = λ op text digest w run. ground (arith, run);
  bytes = λ text. omega arith;
}

-- An object of `n` bytes with the given writes, and zeros elsewhere.
abbrev pub zeros : Cells
zeros _ = 0

abbrev pub object : ℕ → Cells → Buffer
object n c = record { size = n; cell = c }

abbrev pub memref_param : Buffer → TeeParam
memref_param b = record { memref = b; a = 0 }

abbrev pub demo_list : List Bytes → KeyList
demo_list keys = record { head = keys; count = length keys % 2 ^ 32 }

abbrev pub demo_repo : Repo
demo_repo = record {
  block_height = 4;
  names = object names_size (write zeros latest_hash (codes "c0de"));
  admin_keys = some (demo_list (codes "ann" ∷ []));
  writer_keys = some (demo_list (codes "bob" ∷ []));
}

-- One repository, with the message in the first parameter.
abbrev pub demo_state : Buffer → Ta ℕ
demo_state message = record {
  world = 0;
  stack = zeros;
  repo_num = 1;
  repositories = λ i. if i == 0 then some demo_repo else none;
  param0 = memref_param message;
  param1 = memref_param (object 2308 (write zeros 0 (codes "00")));
  param2 = memref_param (object 2308 zeros);
  param3 = memref_param (object 600 zeros);
}

-- A PUSH to repository 0 that `bob` signed.
abbrev pub commit_message : Buffer
commit_message = object 1096 (
    write
      (write (write (write zeros Commit.op_at (u32_bytes 2)) Commit.commit_hash_at (codes "beef"))
        Commit.sigkey_at (codes "bob"))
      Commit.signature_at (codes "ab12"))

-- The administrator `ann` makes `bob` an administrator of repository 0.
abbrev pub access_message : Buffer
access_message = object 1548 (
    write
      (write
        (write (write zeros AccessControl.role_at (u32_bytes 1)) AccessControl.pubkey_at
          (codes "bob"))
        AccessControl.sigkey_at (codes "ann"))
      AccessControl.signature_at (codes "ab12"))

abbrev pub init_message : Buffer
init_message = object 512 (write zeros 0 (codes "eve"))

-- The TA when it was just loaded, and the founder's message.
abbrev pub loaded_state : Ta ℕ
loaded_state = record (demo_state init_message) { repo_num = 0; repositories = no_repositories }
