-- ===== src/Boot/Disk/Tests.antt =====
-- The payload of 640 bytes, and a client that writes its block and reads it back.
use cr_ow_s.Base.{◌+◌, ◌≡◌, refl, true, false, List, [], ◌∷◌, some, arith, inl}
use cr_ow_s.Base.Status.{Status}
use cr_ow_s.Base.Memory.{Memory}
use cr_ow_s.Ramdisk.{PrivateData, init_block_io}
use cr_ow_s.Ramdisk.Pools.{Event}
use cr_ow_s.Ramdisk.Nfit.{publish_nfit, fetch_map, publish_found, conclude, memory_found, covers}
use cr_ow_s.Ramdisk.Register.{register, register_disk, finish, new_disk}
use cr_ow_s.Ramdisk.Register
use cr_ow_s.Ramdisk.Device.{Request, AllAside, session, expected}
use cr_ow_s.Boot.Files.{file_size, write_bytes}
use cr_ow_s.Boot.Payload.{
  Image, Decryption, load_and_decrypt, load_chunks, decrypt_loaded, locate_image,
}
use cr_ow_s.Boot.Samples.{content, handle-Serves, empty, world}
use cr_ow_s.Boot.Disk.{Decrypted, hinted, payload-session}

abbrev image : Image
image = record { image = 0x100080; length = 512 }

abbrev after : Memory
after = write_bytes 0x100000 640 (λ i. content (0 + i)) empty

abbrev disk : PrivateData
disk = record {
  handle = 9;
  media = record {
    media_id = 0;
    removable_media = false;
    media_present = true;
    logical_partition = false;
    read_only = false;
    write_caching = false;
    block_size = 512;
    last_block = 0;
  };
  device_path = 7;
  starting_addr = 0x100080;
  size = 512;
  type_guid = 5;
  instance_number = 0;
}

loads :
    load_and_decrypt 2 world.mftah (world.file 10) 0 Status.success 0x100000 (b'p' ∷ []) empty
    ≡ Decryption.ready image after
unfolding load_and_decrypt load_chunks decrypt_loaded locate_image file_size
loads = refl

registered :
    (es : List Event) × (register world.lib world.release_date world.ramdisk 0x100080 512
        (some 5)
        true
      ≡ Register.returned Status.success (some disk) (some 7) es)
unfolding register register_disk new_disk finish publish_nfit fetch_map publish_found conclude
    memory_found covers init_block_io
registered = (_, refl)

abbrev requests : List Request
requests =
    Request.reads 0 512 0x6000
    ∷ (Request.writes 0 512 0x5000 (λ i. 7) ∷ (Request.reads 0 512 0x6000 ∷ []))

requests-AllAside : AllAside disk requests
requests-AllAside = (omega arith, (omega arith, (omega arith, tt)))

payload-session_example :
    Decrypted world content 640 0x100000 (b'p' ∷ []) empty image after
    × (session world.lib disk requests (hinted world image after)
        ≡ expected 512 requests (λ i. after (0x100080 + i)))
payload-session_example =
    payload-session world content 640 Status.success 0x100000 (b'p' ∷ []) empty after 10 image
      Status.success disk (some 7) registered.0 requests handle-Serves (omega arith) (omega arith)
      (omega arith) loads (inl (omega arith)) (inl (omega arith)) registered.1 requests-AllAside
