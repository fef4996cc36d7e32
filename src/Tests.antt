-- ===== src/Tests.antt =====
-- Runs of the program's functions, and the theorems at concrete inputs.
mod Chunks
mod Store
mod Meta
mod Paths
mod Open
mod Names
mod Index
mod ThreadPool
mod Listing
mod Mounted
mod Remounted
mod Kept
mod Hello
use crunch_fs.Base.{ℕ, ◌+◌, none, some, [], ◌∷◌, Str, codes, length, true}
use crunch_fs.Base.Bytes.{Bytes}
use crunch_fs.Disk.{Disk}
use crunch_fs.Passthrough.Layout.{Config}
use crunch_fs.Passthrough.Handles.{OpenFileHandle, Process}

abbrev pub cfg : Config
cfg = record { backing_dir = codes "/b" }

-- a hash that tells paths of different lengths apart
abbrev pub by_length : Str → ℕ
by_length s = length s

abbrev pub blank : Disk
blank = record { files = λ q. none; faults = [] }

-- the first open fails
abbrev pub failing : Disk
failing = record { files = λ q. none; faults = some 0 ∷ [] }

abbrev pub note : Str
note = codes "/note"

abbrev pub report : Str
report = codes "/report"

abbrev pub hello : Bytes
hello = codes "hello"

abbrev pub handle : OpenFileHandle
handle = record { path = note; content = hello; dirty = true }

abbrev pub running : Process
running = record { disk = blank; handles = λ k. some handle; addresses = λ k. 7 + k }

abbrev pub starved : Process
starved = record { disk = failing; handles = λ k. some handle; addresses = λ k. 7 + k }
