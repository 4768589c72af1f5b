-- ===== src/Admin/System.antt =====
-- The page of the system and that of the settings: web/src/pages/admin/system.tsx and settings.tsx.
-- Percentages and sizes are taken as whole numbers here, so that a bar's width and a duration are
-- exact; the printing of numbers is an argument.
use go_drive.Base.{
  ℕ, ◌+◌, ◌*◌, ◌/◌, ◌%◌, ◌<◌, ◌≤◌, String, Bool, true, false, ◌||◌, Option, none, some, List, [],
  ◌∷◌, ltb, or_text, if◌then◌else◌, arith, ltb→lt, Bool-cases, inl, inr,
}
use go_drive.Api.Calls.{bool, Call}

-- What `formatUptime` prints: the numbers with their units.
pub data Uptime : Type 0 where
  seconds : ℕ → Uptime
  minutes : ℕ → ℕ → Uptime
  hours : ℕ → ℕ → Uptime
  days : ℕ → ℕ → ℕ → Uptime

unfoldable pub format_uptime : ℕ → Uptime
format_uptime s =
    let h = s / 3600 in
    let m = (s % 3600) / 60 in
    if ltb s 60
    then seconds s
    else (if ltb s 3600
        then minutes (s / 60) (s % 60)
        else (if ltb h 24 then hours h m else days (h / 24) (h % 24) m))

-- The seconds that the text stands for, and its precision.
abbrev pub shown_seconds : Uptime → ℕ
shown_seconds (seconds s) = s
shown_seconds (minutes m s) = 60 * m + s
shown_seconds (hours h m) = 3600 * h + 60 * m
shown_seconds (days d h m) = 86400 * d + 3600 * h + 60 * m

abbrev pub precision : Uptime → ℕ
precision (seconds s) = 1
precision (minutes m s) = 1
precision _ = 60

-- The numbers are in the range of their units.
abbrev pub InRange : Uptime → Type 0
InRange (seconds s) = s < 60
InRange (minutes m s) = (1 ≤ m) × (m < 60) × (s < 60)
InRange (hours h m) = (1 ≤ h) × (h < 24) × (m < 60)
InRange (days d h m) = (1 ≤ d) × (h < 24) × (m < 60)

-- The uptime on the page has its numbers in the range of their units, and it is the time that has
-- passed, rounded down: to the second below an hour, to the minute from then on.
pub format_uptime_lem :
    (s : ℕ)
    → InRange (format_uptime s)
      × (shown_seconds (format_uptime s) ≤ s)
      × (s < shown_seconds (format_uptime s) + precision (format_uptime s))
unfolding format_uptime
format_uptime_lem s = elim (Bool-cases (ltb s 60)) [
  | inl a ↦ rw a (ground (arith, a), omega arith, omega arith)
  | inr a ↦ elim (Bool-cases (ltb s 3600)) [
    | inl b ↦
        let l = ltb→lt s 3600 b in
        let k : 60 ≤ s = ground (arith, a) in
        rw (a, b) ((omega arith, omega arith, omega arith), omega arith, omega arith)
    | inr b ↦
        let k : 3600 ≤ s = ground (arith, b) in
        elim (Bool-cases (ltb (s / 3600) 24)) [
          | inl c ↦
              let l = ltb→lt (s / 3600) 24 c in
              rw (a, b, c) ((omega arith, l, omega arith), omega arith, omega arith)
          | inr c ↦
              let l : 24 ≤ s / 3600 = ground (arith, c) in
              rw (a, b, c) ((omega arith, omega arith, omega arith), omega arith, omega arith)
        ]
  ]
]

pub record SystemInfo : Type 0 where
  pub cpu_pct : ℕ
  pub cpu_count : ℕ
  pub mem_total_mb : ℕ
  pub mem_used_mb : ℕ
  pub mem_pct : ℕ
  pub disk_total_gb : ℕ
  pub disk_used_gb : ℕ
  pub disk_free_gb : ℕ
  pub disk_pct : ℕ
  pub host : String
  pub os : String
  pub arch : String
  pub pid : ℕ
  pub uptime_s : ℕ
  pub goroutines : ℕ
  pub heap_alloc_mb : ℕ
  pub proc_cpu_pct : ℕ
  pub proc_rss_mb : ℕ
  pub proc_threads : ℕ
  pub proc_fds : ℕ

-- `MetricBar`: a label, the width of the bar in percent, and the numbers beside it.
pub record MetricBar : Type 0 where
  pub label : String
  pub width : ℕ
  pub detail : List ℕ

-- `Math.min(Math.max(value, 0), 100)`.
unfoldable pub bar_width : ℕ → ℕ
bar_width value = if ltb value 100 then value else 100

unfoldable pub metric_bar : String → ℕ → List ℕ → MetricBar
metric_bar label value detail = record { label = label; width = bar_width value; detail = detail }

-- `mem_total_mb > 0 ? (proc_rss_mb / mem_total_mb) * 100 : 0`, rounded down.
unfoldable pub rss_pct : SystemInfo → ℕ
rss_pct s = if ltb 0 s.mem_total_mb then s.proc_rss_mb * 100 / s.mem_total_mb else 0

-- The bars of the overview and of the storage.
unfoldable pub host_bars : SystemInfo → List MetricBar
host_bars s =
    metric_bar "CPU" s.cpu_pct (s.cpu_pct ∷ [])
    ∷ metric_bar "Memory" s.mem_pct (s.mem_used_mb ∷ s.mem_total_mb ∷ [])
    ∷ metric_bar "Disk" s.disk_pct (s.disk_used_gb ∷ s.disk_total_gb ∷ [])
    ∷ []

unfoldable pub process_bars : SystemInfo → List MetricBar
process_bars s =
    metric_bar "CPU" s.proc_cpu_pct (s.proc_cpu_pct ∷ [])
    ∷ metric_bar "RSS" (rss_pct s) (s.proc_rss_mb ∷ [])
    ∷ []

-- A detail: a number, a duration, or a text.
pub data Detail : Type 0 where
  count : String → ℕ → Detail
  duration : String → Uptime → Detail
  text : String → String → Detail

unfoldable pub process_details : SystemInfo → List Detail
process_details s =
    duration "admin.systemUptime" (format_uptime s.uptime_s)
    ∷ count "admin.systemGoroutines" s.goroutines
    ∷ []

unfoldable pub storage_details : SystemInfo → List Detail
storage_details s =
    count "admin.systemDiskTotal" s.disk_total_gb
    ∷ count "admin.systemDiskUsed" s.disk_used_gb
    ∷ count "admin.systemDiskFree" s.disk_free_gb
    ∷ []

unfoldable pub host_details : SystemInfo → List Detail
host_details s =
    text "admin.systemHostname" (or_text s.host "—")
    ∷ text "admin.systemOS" (or_text s.os "—")
    ∷ text "admin.systemArch" (or_text s.arch "—")
    ∷ count "admin.systemCores" s.cpu_count
    ∷ duration "admin.systemUptime" (format_uptime s.uptime_s)
    ∷ count "admin.systemHeapAlloc" s.heap_alloc_mb
    ∷ count "admin.systemThreads" s.proc_threads
    ∷ count "admin.systemFDs" s.proc_fds
    ∷ []

pub data SystemView : Type 0 where
  loading failed : SystemView
  shown : SystemInfo → SystemView

unfoldable pub system_view : Bool → Bool → Option SystemInfo → SystemView
system_view true is_error answer = loading
system_view false true answer = failed
system_view false false none = failed
system_view false false (some s) = shown s

-- The settings: the switch that turns registration off, and what it sends.
pub record Switch : Type 0 where
  pub checked : Bool
  pub disabled : Bool
  pub load_error : Bool
  pub save_error : Bool

abbrev or_false : Option Bool → Bool
or_false none = false
or_false (some b) = b

unfoldable pub register_switch : Bool → Bool → Bool → Bool → Option Bool → Switch
register_switch is_loading is_error save_pending save_error register_disabled = record {
  checked = or_false register_disabled;
  disabled = is_loading || save_pending;
  load_error = is_error;
  save_error = save_error;
}

unfoldable pub save_register : Bool → Call
save_register disabled = record {
  path = "/api/admin/settings/register";
  method = "PUT";
  body = ("register_disabled", bool disabled) ∷ [];
}
