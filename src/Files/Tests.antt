-- ===== src/Files/Tests.antt =====
-- File/File.cpp: the theorems at one buffer.
use ioloop.Files.Descriptor.{
  of_fd, destroy, Op, close_op, release_op, run, is_released, destroy-run,
}
use ioloop.Prelude.{
  ◌++◌, if◌then◌else◌, List, ℕ, ◌≤◌, ◌≡◌, refl, List, [], ◌∷◌, true, false, length,
}
use ioloop.Files.{transfer, interrupted, failed, write_all, write_all_from}
use ioloop.Files.Transfer.{after_write, write_all-Written}

abbrev buffer : List ℕ
buffer = 1 ∷ 2 ∷ 3 ∷ []

abbrev file : List ℕ
file = 7 ∷ 8 ∷ 9 ∷ 10 ∷ []

write_all-Written_example :
    (2 ≤ length buffer) × ((1 ∷ 2 ∷ 9 ∷ 10 ∷ []) ≡ after_write false 2 buffer file)
unfolding write_all write_all_from
write_all-Written_example =
    write_all-Written false buffer (transfer 2 ∷ interrupted ∷ failed ∷ []) file 2
      (1 ∷ 2 ∷ 9 ∷ 10 ∷ []) refl

-- A descriptor that is closed twice and then released.
abbrev closes : List Op
closes = close_op true ∷ close_op false ∷ release_op ∷ []

destroy-run_example :
    (destroy (run closes (of_fd 9))).closed
    ≡ (of_fd 9).closed ++ (if is_released closes then [] else 9 ∷ [])
unfolding of_fd
destroy-run_example = destroy-run closes 9 (of_fd 9) refl
