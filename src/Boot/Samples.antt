-- ===== src/Boot/Samples.antt =====
-- A payload of 640 bytes with a header of 128, its handle, and an MFTAH that takes `p` for the
-- password and decrypts nothing.
use cr_ow_s.Base.{
  ℕ, ◌+◌, ◌-◌, refl, Bool, true, false, not, List, [], ◌∷◌, some, leb, ◌==◌, if◌then◌else◌,
}
use cr_ow_s.Base.Status.{Status}
use cr_ow_s.Base.Memory.{Memory, plain_lib}
use cr_ow_s.Loader.Samples.{strings, same}
use cr_ow_s.Ramdisk.Nfit.{Acpi}
use cr_ow_s.Util.Worker.{MftahStatus}
use cr_ow_s.Boot.Files.{Handle, Serves, file_size, Mftah}
use cr_ow_s.Input.Session.{press}
use cr_ow_s.Loader.{named, Discovery}
use cr_ow_s.Boot.Password.{Prompt}
use cr_ow_s.Boot.Main.{Attempt, Visit}
use cr_ow_s.Boot.Hints
use cr_ow_s.Boot.Hints.{Variable}
use cr_ow_s.Boot.Jump.{Volume}
use cr_ow_s.Boot.Course.{World, Startup}

-- The length in the header is 512.
abbrev pub content : ℕ → ℕ
content a = if a == 97 then 2 else 0

abbrev pub handle : Handle
handle = record {
  info = some 640;
  read = λ pos n. record {
    status = Status.success;
    count = if leb n (640 - pos) then n else 640 - pos;
    bytes = λ i. content (pos + i);
  };
}

pub handle-Serves : Serves handle content 640
unfolding file_size
handle-Serves = record {
  sized = refl;
  succeeds = λ pos n h. refl;
  counts = λ pos n h. refl;
  brings = λ pos n i h k. refl;
}

abbrev is_ok : MftahStatus → Bool
is_ok MftahStatus.success = true
is_ok _ = false

abbrev pub mftah : Mftah
mftah = record {
  header_bytes = 128;
  is_failure = λ s. not (is_ok s);
  create_payload = λ m buffer n. MftahStatus.success;
  check_password = λ m buffer n pw.
      if same pw (b'p' ∷ []) then MftahStatus.success else MftahStatus.invalid_password;
  decrypt = λ m buffer n pw. (MftahStatus.success, m);
  get_buffer_base = λ m buffer n. (MftahStatus.success, buffer);
  is_failure-success = refl;
}

abbrev pub empty : Memory
empty a = 0

abbrev pub hints : Hints.Firmware
hints = record {
  set_variable = λ v. Status.success;
  allocate = λ v. (Status.success, elim v [ Variable.loader_hash ↦ 0x2000 | _ ↦ 0x3000 ]);
}

-- A filesystem without the canary file, and the ramdisk's.
abbrev pub volumes : List Volume
volumes =
    record {
      handle = 1;
      protocol = Status.success;
      volume = Status.success;
      canary = Status.not_found;
      load_image = Status.success;
      image_protocol = Status.success;
      start_image = Status.success;
    }
    ∷ record {
      handle = 9;
      protocol = Status.success;
      volume = Status.success;
      canary = Status.success;
      load_image = Status.success;
      image_protocol = Status.success;
      start_image = Status.aborted;
    }
    ∷ []

abbrev acpi : Acpi
acpi = record {
  present = true;
  attempts =
      record {
        pool = true;
        status = Status.success;
        descriptors = record { physical_start = 0; number_of_pages = 0x10000 } ∷ [];
      }
      ∷ [];
  ssdt = Status.success;
  table = 0x9000;
  install = Status.success;
}

abbrev pub world : World
world = record {
  strings = strings;
  lib = plain_lib;
  mftah = mftah;
  file = λ h. handle;
  fuel = 2;
  hints = hints;
  release_date = 0x20250101;
  disk_guid = 5;
  ramdisk_protocol = Status.success;
  ramdisk = record {
    private_pool = true;
    node_pool = true;
    path = λ node. 7;
    handle = 9;
    install = Status.success;
    connect = Status.success;
    acpi = acpi;
  };
  blocks = Status.success;
  disks = Status.success;
  filesystems = Status.success;
  volumes = volumes;
  key_reset = Status.success;
  key_reads = Status.not_ready ∷ (Status.success ∷ []);
}

abbrev pub startup : Startup
startup = record {
  watchdog = Status.success;
  art_attribute = Status.success;
  text_attribute = Status.success;
  acpi_protocol = 1;
  ramdisk_driver = Status.success;
  factory = MftahStatus.success;
}

abbrev typing : ℕ → Prompt
typing c = record { reset = Status.success; rounds = press c ∷ (press 0x0d ∷ []) }

abbrev pub with_key : ℕ → Attempt
with_key c = record {
  prompts = typing c ∷ [];
  rewound = Status.success;
  check_buffer = 0x5000;
  check_memory = empty;
  alloc = Status.success;
  load_buffer = 0x100000;
  load_memory = empty;
}

abbrev pub two_tries : Visit
two_tries = record {
  discovery = Discovery.single_payload;
  files = named 10 (b'B' ∷ []) ∷ [];
  typed = [];
  position = Status.success;
  attempts = with_key b'o' ∷ (with_key b'p' ∷ []);
}
