-- ===== src/Tests/Allocations.antt =====
-- The allocations of the first repository.
use trust_chain.Base.{ℕ, refl, ok}
use trust_chain.KeyList.Heap.{CountsHeap}
use trust_chain.Platform.{Platform}
use trust_chain.Ta.InitRepo.{init_repo}
use trust_chain.Ta.InitRepo.Heap.{KeepsHeap}
use trust_chain.Ta.InitRepo.Heap.Whole.{Balanced, init_repo-Balanced}
use trust_chain.Tests.Demo.{loaded_state}
use trust_chain.Tests.Parts.{allocating}

-- The world is the number of live allocations, and every handle is the same.
abbrev counting : Platform ℕ
counting = record allocating {
  allocate_operation = λ a n w. (ok 1, w);
  open_persistent_object = λ id w. (ok 1, w);
  create_persistent_object = λ id o w. (ok 1, w);
  allocate_transient_object = λ t n w. (ok 1, w);
}

counting-CountsHeap : CountsHeap counting (λ a. 1) (λ w. w)
counting-CountsHeap = record { malloc_live = λ a n w. refl; free_live = λ a w. refl }

counting-KeepsHeap : KeepsHeap counting (λ w. w)
counting-KeepsHeap = record {
  get_system_time = λ w. refl;
  allocate_operation = λ a n w. refl;
  free_operation = λ h w. refl;
  set_operation_key = λ o k w. refl;
  digest_do_final = λ o t w. refl;
  asymmetric_sign_digest = λ o d w. refl;
  open_persistent_object = λ id w. refl;
  create_persistent_object = λ id o w. refl;
  close_object = λ h w. refl;
  allocate_transient_object = λ t n w. refl;
  free_transient_object = λ h w. refl;
  generate_key = λ h n w. refl;
}

init_repo-Balanced_example : Balanced (λ a. 1) (λ w. w) 0 0 (init_repo counting 1573 loaded_state)
init_repo-Balanced_example =
    init_repo-Balanced counting (λ a. 1) (λ w. w) counting-CountsHeap counting-KeepsHeap 1573
      loaded_state
