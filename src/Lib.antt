-- ===== src/Lib.antt =====
-- Trust Chain: a TEE application (ta/) that keeps, for each of up to 1000 repositories, who may
-- administrate and who may write, and a chain of signed blocks, of which it stores the latest hash;
-- and a host program (host/main.c) that passes HTTP requests on to it.
--
-- The parts and their files:
-- - ta/trust_chain_ta.c, the globals, the entry points and the five commands: Ta (dispatch and
--   sessions), Ta/State (struct repo_metadata, `repo_num`, `repositories`, the parameters of a
--   call), Ta/InitRepo (`init_repo`, `cleanup_repo_resources`), Ta/AccessControl (`access_control`),
--   Ta/Commit (`commit`), Ta/Query (`get_latest_hash`, `get_tee_public_key`). A long handler is
--   written as the parts that its comments mark: reading and guards, the signature check, the
--   effects.
-- - ta/block/block.c and block.h: Block, with the offsets of the structs in Block/Layout.
-- - ta/key_list/key_list.c: KeyList. A node and its key are one allocation each, and no node is
--   shared, so that a list is the keys along its nodes and the count beside them. KeyList/Sets
--   forgets the order (a finite multiset of keys as a quotient), KeyList/Heap follows the
--   allocations.
-- - ta/utils/utils.c: Utils (digests, signature checks, time), Utils/Pem, Hex.
-- - ta/tee_key_manager/tee_key_manager.c: KeyManager.
-- - ta's decimal numbers in texts (`%u`): Decimal.
-- - host/main.c: Host/Session (the connection with the TA), Host/Text (the functions of the C
--   library that take a request apart), Host/Http (requests and answers as bytes, and the dispatch
--   by method and path), Host/Handlers (one handler for each request) with Host/Answer (what they
--   send), Host/Message (`access_control_message`).
-- - host/main.c's `main` and its threads: Host/Server, on the calls of sockets, the heap and threads
--   in Host/Network. Host/Answered counts what a client is sent and the JSON roots, Host/Successes
--   the answers with status 200.
-- - ta/user_ta_header_defines.h: Ta/Lifecycle, with the entry points that create and destroy the TA
--   and close a session, and what one session leaves to the next.
-- - Whole runs: Ta/Reachable (the states that commands lead to), Ta/Ledger (the roles and the chain
--   that a repository in memory stands for), Ta/History (the chain of blocks behind each latest
--   hash) and Ta/Failed (what a command with an error leaves); Ta/Trust follows the roles back.
--   Ta/InitRepo/Succeeds, Ta/AccessControl/Succeeds and Ta/Commit/Succeeds: when these commands
--   succeed; Ta/Overrun: when they cannot; Ta/InitRepo/Heap: the allocations of `init_repo`.
--   KeyManager/Working says what a platform does when nothing fails. Host/Connected: the host and
--   the TA together.
-- The handlers call the block, key list, utility and key manager modules, and these call the
-- platform.
--
-- How the code is represented:
-- - Platform is a record of everything that the code calls and does not implement: the
--   GlobalPlatform TEE Internal Core API and mbedTLS. Each call takes and returns a state `W` of
--   that world, and may fail with any code. Theorems hold for every platform, or name what they need
--   of one.
-- - Host/Libraries is such a record for the host: the TEE Client API, jansson and the client's
--   socket. The TA stands behind its `invoke_command`; Host/Refused says what the properties of both
--   together need of it. A request is at most 4095 bytes, and its functions take one list of bytes.
-- - Host/Network is one for the operating system below the host, with a state of its own. A thread
--   of the host takes four steps: it receives, answers, closes its connection, and frees its int.
--   The steps of the threads and the rounds of the loop of `main` come in any order; what a thread
--   does to answer a request is one step.
-- - The framework that makes instances of the TA is a function from its flags and the old globals to
--   the globals of a new session; Ta/Lifecycle says what is relied on.
-- - Base/Effect: a call ends with a value, with a TEE_Result other than TEE_SUCCESS, or in undefined
--   behaviour (`fault`: an access outside its object, a missing NUL, a NULL pointer), and changes
--   the state in each case, as C does, so that what a failed call wrote stays written.
-- - Memory: structs and buffers are arrays of bytes of a known size. `strcpy` into a field that is
--   too short runs into the next field of the same object, and is undefined past the object's end.
--   That is what the code does with its 64-byte hashes and 512-digit signatures. A local array that
--   is not initialised holds what the stack holds, a function of the state.
-- - The NUL of a digest falls one byte behind the local `block_hash[64]` and `genesis_hash[64]`,
--   which the C standard leaves undefined. What becomes of it depends on the compiler's layout of
--   the stack, so that `hash_room` of Platform is how many bytes can be written there: up to 64, the
--   printing of a hash is a fault; from 65 on, the NUL does no harm. The hash is passed on as a
--   text.
-- - A pointer from TEE_Malloc is known by what it is to point to (`Allocation`): the node and the
--   string of a key by the key, a key list, a repository, the bytes of a number. TEE_Free gets the
--   same.
-- - uint32_t arithmetic on heights and counts wraps at 2 ^ 32. A number in memory is four bytes.
-- - Two loops run on fuel. `digits` has ten rounds, as many as a uint32_t has decimal digits.
--   `pem_lines` has a round for each character of the text, and every round takes at least one.
--
-- Not modelled: log messages (the one about a signer without the right reads its whole key, as the
-- model does); that a signature without its NUL is read only after the signer's key was parsed, so
-- that the model has undefined behaviour where the source may return an error before; what two
-- threads of the host do to the TA while both answer a request; the sizes of the stack and the heap
-- of the TA and its version and property texts; the NULL tests on arguments that no caller leaves
-- NULL; writes of the caller to shared memory during a call; the types of the TEE Client API and of
-- its session, which only TEEC calls read.
pub mod Base
pub mod Memory
pub mod Hex
pub mod Platform
pub mod KeyList
pub mod Utils
pub mod KeyManager
pub mod Decimal
pub mod Block
pub mod Ta
pub mod Host
pub mod Tests
