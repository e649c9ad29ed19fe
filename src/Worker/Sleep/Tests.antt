-- ===== src/Worker/Sleep/Tests.antt =====
-- Runs and witnesses for the sleep mode of `Worker`.
use Prim.Native.String.{String}
use text.Mathlib.Text.{starts_with}
use mathlib.Core.List.{Memᴰ}
use mathlib.Core.List.Memᴰ as MemD
use glm53flash_pp.Worker.Dict.{same, insert}
use glm53flash_pp.Base.{
  ℕ, ◌+◌, ◌*◌, [], ◌∷◌, map, none, some, true, false, ◌≡◌, ◌≢◌, refl, arith, ◌==◌, if◌then◌else◌,
  if_none, subst, sym, ◌∙◌, ap,
}
use glm53flash_pp.Worker.Sleep.{
  Module, Worker, Backend, Readings, still_polling, retention_unmatched, memory_increased,
  get_sleep_parameters, sleep, wake_up, wake_ups,
}
use glm53flash_pp.Worker.Sleep.Saved.{Unique}
use glm53flash_pp.Worker.Sleep.RoundTrip.{parameter, sleep-wake_up}
use glm53flash_pp.Worker.Sleep.Poll.{sleep_returns}

-- A level of 2 drops the contents; the one pattern is a prefix.
abbrev pub backend : Backend ℕ
backend = record {
  suspend = λ level st i. if level == 2 then 0 else st i;
  resume = λ tags st. st;
  fnmatch = λ p n. if same p "draft.*" then starts_with n "draft." else same p n;
}

abbrev pub worker : Worker ℕ
worker = record {
  store = λ i. 10 + i;
  is_cpu = λ i. false;
  model = record { named_parameters = ("w", 0) ∷ ("b", 1) ∷ []; named_buffers = ("scale", 2) ∷ [] };
  draft = some (record { named_parameters = ("w", 0) ∷ ("head", 3) ∷ []; named_buffers = [] });
  sleep_preserve_parameter_names = "draft.*" ∷ [];
  saved_parameters = [];
  saved_buffers = [];
  saved_draft_buffers = [];
}

abbrev pub readings : Readings
readings = record {
  is_rocm = true;
  free_bytes_before_sleep = 7;
  clock = 1000;
  free_bytes = λ k. 5 + k;
  monotonic = λ k. 1000 + 100 * k;
}

slept : (sleep backend readings 2 worker).1 ≡ none
unfolding sleep insert
slept = refl

-- the memory is never freed
abbrev pub stuck : Readings
stuck = record readings { free_bytes = λ k. 3 }

sleep-stuck : (sleep backend stuck 2 worker).1 ≡ some memory_increased
unfolding sleep insert
sleep-stuck = refl

sleep_returns_example : (sleep backend stuck 1 worker).1 ≢ some still_polling
sleep_returns_example = sleep_returns backend stuck 1 worker (λ k. omega arith)

woken_contents :
    map (wake_up backend none (sleep backend readings 2 worker).0).0.store (0 ∷ 1 ∷ 2 ∷ 3 ∷ [])
    ≡ 0 ∷ 0 ∷ 12 ∷ 13 ∷ []
unfolding sleep wake_up insert
woken_contents = refl

one-Unique : (k : String) (l : ℕ) → Unique ((k, l) ∷ [])
one-Unique k l n i j p q =
    ap (λ x. x.1) (MemD.eq_of_singleton p) ∙ sym (ap (λ x. x.1) (MemD.eq_of_singleton q))

draft-Unique : (d : Module) → worker.draft ≡ some d → Unique d.named_buffers
draft-Unique d e =
    subst (λ o. Unique (if_none o [] (λ m. m.named_buffers))) e (λ n i j p q. elim p [ ])

accepted : (sleep backend readings 2 worker).1 ≢ some retention_unmatched
unfolding sleep insert
accepted h = cc

sleep-wake_up_example :
    let w = wake_ups backend (some ("kv_cache" ∷ []) ∷ []) (sleep backend readings 2 worker).0 in
    let (w', err) = wake_up backend (some ("weights" ∷ [])) w in (err ≡ none) × (w'.store 3 ≡ 13)
unfolding sleep get_sleep_parameters insert
sleep-wake_up_example =
    sleep-wake_up backend readings worker (some ("kv_cache" ∷ []) ∷ []) (some ("weights" ∷ [])) 3
      (one-Unique "scale" 2) draft-Unique accepted (refl, tt) refl
      (parameter "draft.head" "draft.*" (Memᴰ.tail (Memᴰ.tail (Memᴰ.head refl))) (Memᴰ.head refl)
        refl refl)
