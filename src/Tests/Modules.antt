-- ===== src/Tests/Modules.antt =====
-- The two devices as audio modules, and their creation.
use mqtgcalls.Prelude.{◌≡◌, ◌⊎◌, ◌||◌, true, false, [], ◌∷◌, is_zero}
use mqtgcalls.Host.{Event}
use mqtgcalls.Host.MemFile.{MemFile, mem_api, mem_heap, mem_file}
use mqtgcalls.FileAudioDevice.Defs.{FileAudioDevice}
use mqtgcalls.AudioModule.{
  AudioDeviceModule, KeepsStatus, start_audio_device_module, restart_audio_input_device,
}
use mqtgcalls.AudioModule.Devices.{
  file_module, raw_module, file_module-KeepsStatus, raw_module-KeepsStatus,
}
use mqtgcalls.AudioModule.Restarts.{
  started_input, restarted_input, start_audio_device_module-starts,
  restart_audio_input_device-restarts,
}
use mqtgcalls.Tests.{once, busy, busy_raw}

abbrev song : MemFile
song = mem_file (1 ∷ 2 ∷ 3 ∷ [])

abbrev module_of_song : AudioDeviceModule (FileAudioDevice MemFile) Event
module_of_song = file_module mem_api mem_heap (mem_file []) song once

file_module-KeepsStatus_example : KeepsStatus module_of_song
file_module-KeepsStatus_example = file_module-KeepsStatus mem_api mem_heap (mem_file []) song once

start_audio_device_module-starts_example :
    ((start_audio_device_module (raw_module mem_heap) true busy_raw).1.recording
      ≡ (true || is_zero ((raw_module mem_heap).start_recording busy_raw).0))
    × ((start_audio_device_module (raw_module mem_heap) true busy_raw).1.playing ≡ (
        true
        || is_zero
            ((raw_module mem_heap).start_playout
              (started_input (raw_module mem_heap) (raw_module-KeepsStatus mem_heap) busy_raw)).0))
start_audio_device_module-starts_example =
    start_audio_device_module-starts (raw_module mem_heap) (raw_module-KeepsStatus mem_heap)
      busy_raw

restart_audio_input_device-restarts_example :
    (((busy song).recording ≡ false)
      × (restart_audio_input_device module_of_song true (busy song) ≡ (tt, busy song, [])))
    ⊎ (((busy song).recording ≡ true)
        × ((restart_audio_input_device module_of_song true (busy song)).1.recording
            ≡ is_zero
                (module_of_song.start_recording (
                  restarted_input module_of_song
                    (file_module-KeepsStatus mem_api mem_heap (mem_file []) song once)
                    (busy song))).0)
        × ((restart_audio_input_device module_of_song true (busy song)).1.playing ≡ true))
restart_audio_input_device-restarts_example =
    restart_audio_input_device-restarts module_of_song
      (file_module-KeepsStatus mem_api mem_heap (mem_file []) song once) (busy song)
