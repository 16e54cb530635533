-- ===== src/Examples/Kernels.antt =====
-- Downloading a kernel: the first response breaks off, the second is whole.
use sakai.Paths.{root_dir, normal}
use sakai.Vmtest.Run.Sound.{Tests}
use sakai.Vmtest.Run.Started.{run-Tests}
use sakai.Vmtest.Selection.{Kernel, smoke_profile, selected}
use sakai.Vmtest.Build.{compiler_artifact, compiler_message, Tools}
use sakai.Vmtest.Run.{Machine, Host, Stop, Caches, run}
use sakai.Base.{
  ◌==◌, if◌then◌else◌, ok, err, ℕ, ◌≤◌, ◌≡◌, refl, ◌⊎◌, true, false, none, some, List, [], ◌∷◌, map,
}
use sakai.Vmtest.Download.Whole.{IsDelivered, download-IsDelivered}
use sakai.Vmtest.Image.Complete.{Keeps, image-Keeps}
use sakai.Vmtest.Image.{Cache, Environment, download_retry_delay, image}
use sakai.Http.{RequestError}
use sakai.Vmtest.Download.{
  Clock, Chunk, received, lost, Reply, max_download_attempts, Progress, download,
}
use sakai.Str.{Str, codes, str_eq}

abbrev url : Str
url = codes "https://example.org/vmlinuz"

abbrev clock : Clock
clock = record { until_http_date = λ text. none; is_representable = λ d. true }

abbrev broken_pipe : RequestError
broken_pipe = record {
  status = none;
  is_connect = false;
  is_request = false;
  is_timeout = false;
  is_body = true;
  is_decode = false;
}

abbrev body_of : List Chunk → Reply
body_of chunks = ok (record {
  status = record { code = 200; is_server_error = false };
  retry_after = none;
  error_for_status = ok tt;
  create = ok tt;
  chunks = chunks;
})

abbrev replies : ℕ → Reply
replies n =
    if n == 1
    then body_of (received (codes "vm") ∷ lost broken_pipe ∷ [])
    else body_of (received (codes "vm") ∷ received (codes "linuz") ∷ [])

abbrev downloaded : Progress
downloaded = record {
  partial = some (codes "vmlinuz");
  waits = record { secs = 10; nanos = 0 } ∷ [];
}

second_whole : download url download_retry_delay clock replies none ≡ (ok tt, downloaded)
unfolding download
second_whole = refl

download-IsDelivered_example :
    (k : ℕ) × (text : Str) × (1 ≤ k)
    × (k ≤ max_download_attempts)
    × IsDelivered (replies k) text
    × (some (codes "vmlinuz") ≡ some text)
download-IsDelivered_example =
    download-IsDelivered url download_retry_delay clock replies none downloaded second_whole

abbrev env : Environment
env = record {
  create_dir_all = ok tt;
  create_lock = ok tt;
  lock_exclusive = ok tt;
  try_exists = ok tt;
  client = ok tt;
  rename = ok tt;
  removes = true;
}

abbrev no_image : Cache
no_image = record { destination = none; partial = none }

image-downloaded :
    image url clock replies env no_image
    ≡ (ok tt, record { destination = some (codes "vmlinuz"); partial = none })
unfolding image
image-downloaded = refl

image-Keeps_example : Keeps url clock replies env no_image (image url clock replies env no_image)
image-Keeps_example = image-Keeps url clock replies env no_image

-- A run over the two kernels of the quick matrix, each in an empty cache.
abbrev machines : Str → Machine
machines name = record {
  url = url;
  clock = clock;
  replies = replies;
  environment = env;
  write_config = ok tt;
  status = ok (some 0);
}

abbrev tools : Tools
tools = record {
  spawn = ok tt;
  messages =
      ok compiler_message
      ∷ ok (compiler_artifact (codes "linux_live") true (some (codes "/target/linux_live")))
      ∷ [];
  wait = ok true;
  create_parent = ok tt;
  copy = λ path. ok tt;
  rev_parse = ok (true, some (codes "c0ffee\n"));
  write_metadata = λ text. ok tt;
}

abbrev host : Host
host = record {
  os = codes "linux";
  arch = codes "x86_64";
  repository = ok (root_dir ∷ normal (codes "sakai") ∷ []);
  container = ok tt;
  create_cache = ok tt;
  canonicalize = λ path. ok path;
  guest_binary = codes "/cache/bin/linux_live";
  tools = tools;
}

abbrev no_images : Caches
no_images name = no_image

two_ran :
    (run machines host smoke_profile [] none no_images).2
    ≡ (codes "5.15", some (codes "vmlinuz")) ∷ (codes "6.18", some (codes "vmlinuz")) ∷ []
unfolding run
two_ran = refl

native_host : str_eq host.os (codes "macos") ≡ false
unfolding str_eq
native_host = refl

run-Tests_example :
    ((stop : Stop) × (run machines host smoke_profile [] none no_images
        ≡ (err stop, no_images, [])))
    ⊎ ((chosen : List Kernel) × (selected smoke_profile [] ≡ ok chosen)
        × Tests machines
            (map (λ kernel. kernel.name) chosen)
            no_images
            (run machines host smoke_profile [] none no_images))
run-Tests_example = run-Tests machines host smoke_profile [] none no_images native_host
