-- ===== src/Loader/Discover/Hash/Tests.antt =====
-- The hash of a loader of 640 bytes, and of one that cannot be opened or has no buffer.
use cr_ow_s.Base.{ℕ, ◌≡◌, refl, Bool, true, false, arith}
use cr_ow_s.Base.Status.{Status}
use cr_ow_s.Base.Memory.{Memory}
use cr_ow_s.Util.Worker.{MftahStatus}
use cr_ow_s.Boot.Files.{file_size}
use cr_ow_s.Boot.Samples.{content, handle, handle-Serves, empty}
use cr_ow_s.Loader.Discover.Hash.{no_hash, waiting, load_loader, hash_loader}
use cr_ow_s.Loader.Discover.Hash.Reads.{IsHashed, hash_loader-IsHashed}

abbrev create_hash : Memory → ℕ → ℕ → MftahStatus
create_hash m buffer n = MftahStatus.success

abbrev is_failure : MftahStatus → Bool
is_failure MftahStatus.success = false
is_failure _ = true

-- The first Read, the one at the end of the file and the test of the size after it take fuel of 3.
hash-not_opened :
    hash_loader 3 Status.not_found handle 0x8000 create_hash is_failure empty
    ≡ no_hash Status.not_found
unfolding hash_loader
hash-not_opened = refl

hash-no_buffer :
    hash_loader 3 Status.success handle 0 create_hash is_failure empty
    ≡ no_hash Status.out_of_resources
unfolding hash_loader file_size
hash-no_buffer = refl

hash-short_of_fuel :
    hash_loader 2 Status.success handle 0x8000 create_hash is_failure empty ≡ waiting
unfolding hash_loader file_size load_loader
hash-short_of_fuel = refl

hash_loader-IsHashed_example :
    IsHashed create_hash is_failure content 0x8000 640 empty
      (hash_loader 3 Status.success handle 0x8000 create_hash is_failure empty)
hash_loader-IsHashed_example =
    hash_loader-IsHashed 3 handle content 0x8000 640 create_hash is_failure empty handle-Serves
      (omega arith) (omega arith) (omega arith) (omega arith)
