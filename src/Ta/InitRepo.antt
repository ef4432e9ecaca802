-- ===== src/Ta/InitRepo.antt =====
-- ta/trust_chain_ta.c: `init_repo` and `cleanup_repo_resources`.
pub mod Chain
pub mod Steps
pub mod Table
pub mod Atomic
pub mod Succeeds
pub mod Heap
use trust_chain.Base.{
  ℕ, zero, suc, ◌+◌, ◌%◌, ◌^◌, Bool, true, false, not, ◌&&◌, Bytes, [], Option, none, some,
  replicate, leb, ◌==◌, if◌then◌else◌, Action, pure, gets, defined, raise_if, on_error, ◌>>=◌, ◌>>◌,
  ok, err, fault, modify, bad_parameters, out_of_memory,
}
use trust_chain.Memory.{Buffer, load_str, strcpy, memcpy}
use trust_chain.Platform.{Platform, key_set, metadata}
use trust_chain.KeyList.{KeyList, init_key_list, cleanup_key_list, add_key_to_set}
use trust_chain.Utils.{alloc}
use trust_chain.KeyManager.{tee_sign_hash}
use trust_chain.Block.{init_access_block, calculate_access_block_hash}
use trust_chain.Block.Layout
use trust_chain.Ta.State.{
  Repo, Ta, latest_hash, founder_key, names_size, max_repo_id, op_add, role_admin, tee_param_types,
  no_param, value_output, memref_input, memref_output, on_world, put_repo, set_repo, local,
  set_memref2, set_value1,
}

-- `sizeof` of the two structs, with pointers of eight bytes
abbrev repo_metadata_size : ℕ
repo_metadata_size = 600

abbrev key_list_size : ℕ
key_list_size = 16

-- The 64 zeros that stand for the parent of a genesis block.
abbrev pub zero_hash : Bytes
zero_hash = replicate 64 b'0'

module _ {W : Type 0} (p : Platform W) where
  -- `if (list) { cleanup_key_list(list); TEE_Free(list); }`
  free_list : Option KeyList → W → W
  free_list none w = w
  free_list (some l) w = let (_, w') = cleanup_key_list p l w in p.free key_set w'

  unfoldable pub cleanup_repo_resources : ℕ → Ta W → Ta W
  unfolding free_list
  cleanup_repo_resources rep_id s =
      if leb max_repo_id rep_id then s else elim (s.repositories rep_id) [
        | none ↦ s
        | some r ↦ put_repo rep_id none (record s {
          world = p.free metadata (free_list r.writer_keys (free_list r.admin_keys s.world));
        })
      ]

  -- A key list that TEE_Malloc gave, or NULL.
  abbrev new_list : Bool → Option KeyList
  new_list true = some init_key_list
  new_list false = none

  -- The repository with its names set and its key lists allocated.
  unfoldable pub allocate_repo : ℕ → Bytes → Action (Ta W) Repo
  allocate_repo rep_id admin_key = do
    has_repo ← on_world (alloc p metadata repo_metadata_size)
    modify (λ s. if has_repo then s else put_repo rep_id none s)
    raise_if (not has_repo) out_of_memory
    n₁ ← defined (strcpy (record { size = names_size; cell = λ _. 0 }) latest_hash zero_hash)
    n₂ ← defined (strcpy n₁ founder_key admin_key)
    has_admins ← on_world (alloc p key_set key_list_size)
    has_writers ← on_world (alloc p key_set key_list_size)
    let repo : Repo = record {
      block_height = 0;
      names = n₂;
      admin_keys = new_list has_admins;
      writer_keys = new_list has_writers;
    }
    set_repo rep_id repo
    on_error (raise_if (not (has_admins && has_writers)) out_of_memory)
        (cleanup_repo_resources rep_id)
    pure repo

  -- The founder becomes the first administrator.
  unfoldable pub add_founder : ℕ → Repo → Bytes → Action (Ta W) Repo
  add_founder rep_id repo admin_key = do
    admins ← defined repo.admin_keys
    admins' ←
        on_error (on_world (add_key_to_set p admins admin_key)) (cleanup_repo_resources rep_id)
    set_repo rep_id (record repo { admin_keys = some admins' })
    pure (record repo { admin_keys = some admins' })

  -- The genesis block and its hash.
  unfoldable pub genesis_block : Repo → Bytes → Action (Ta W) (Buffer × Bytes)
  genesis_block repo admin_key = do
    parent ← defined (load_str repo.names latest_hash)
    raw ← local Layout.access_block_size
    block ← on_world (
        init_access_block p raw 1 (some parent) op_add role_admin (some admin_key) (some admin_key)
          (some []))
    genesis_hash ← on_world (calculate_access_block_hash p block.cell)
    signed ← on_world (tee_sign_hash p genesis_hash block Layout.tee_sig)
    pure (signed, genesis_hash)

  -- The end of the handler, which fails no more.
  unfoldable pub return_repo : ℕ → Repo → Buffer → Bytes → Action (Ta W) (Unit {0})
  return_repo rep_id repo block genesis_hash = do
    names ← defined (strcpy repo.names latest_hash genesis_hash)
    set_repo rep_id (record repo { names = names })
    set_value1 rep_id
    out ← gets (λ s. s.param2.memref)
    out' ← defined (memcpy out block.cell Layout.access_block_size)
    set_memref2 out'
    modify (λ s. record s { repo_num = (s.repo_num + 1) % 2 ^ 32 })

  -- The handler after the checks of its parameters.
  unfoldable pub create_repo : ℕ → Bytes → Action (Ta W) (Unit {0})
  create_repo rep_id admin_key = do
    repo ← allocate_repo rep_id admin_key
    repo' ← add_founder rep_id repo admin_key
    (block, genesis_hash) ← on_error (genesis_block repo' admin_key) (cleanup_repo_resources rep_id)
    return_repo rep_id repo' block genesis_hash

  unfoldable pub init_repo : ℕ → Action (Ta W) (Unit {0})
  init_repo param_types = do
    raise_if (not (param_types == tee_param_types memref_input value_output memref_output no_param))
        bad_parameters
    key_buffer ← gets (λ s. s.param0.memref)
    rep_id ← gets (λ s. s.repo_num)
    raise_if (leb max_repo_id rep_id) out_of_memory
    admin_key ← defined (load_str key_buffer 0)
    create_repo rep_id admin_key
