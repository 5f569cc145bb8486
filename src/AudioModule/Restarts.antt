-- ===== src/AudioModule/Restarts.antt =====
-- Stopping, starting and restarting the two sides of a module that keeps its status.
use mqtgcalls.Prelude.{true, false, [], ◌≡◌, is_zero, ◌||◌, ◌⊎◌, arith, if◌then◌else◌}
use mqtgcalls.AudioModule.{
  AudioDeviceModule, KeepsStatus, stop_audio_device_module, start_audio_device_module,
  restart_audio_input_device, restart_audio_output_device,
}

module _ {S E : Type 0} (adm : AudioDeviceModule S E) (laws : KeepsStatus adm) (s : S) where
  open adm use {recording, playing}

  -- For a module that keeps its status: after stopAudioDeviceModule it neither records nor plays.
  pub stop_audio_device_module-stops :
      (recording (stop_audio_device_module adm true s).1 ≡ false)
      × (playing (stop_audio_device_module adm true s).1 ≡ false)
  unfolding stop_audio_device_module
  stop_audio_device_module-stops = ground (
    arith,
    laws.recording-stop s,
    laws.recording-stop_playout (adm.stop_recording s).1,
    laws.playing-stop (adm.stop_recording s).1,
  )

  abbrev pub started_input : S
  started_input = if recording s then s else (adm.start_recording s).1

  -- For a module that keeps its status: after startAudioDeviceModule it records exactly if it
  -- recorded before or the start of recording ends with status 0, and it plays exactly if it
  -- played before or the start of playout, made in the state that the recording side was left in,
  -- ends with status 0.
  pub start_audio_device_module-starts :
      (recording (start_audio_device_module adm true s).1
        ≡ (recording s || is_zero (adm.start_recording s).0))
      × (playing (start_audio_device_module adm true s).1
          ≡ (playing s || is_zero (adm.start_playout started_input).0))
  unfolding start_audio_device_module
  start_audio_device_module-starts = ground (
    arith,
    laws.recording-start s,
    laws.playing-start_recording s,
    laws.playing-start started_input,
    laws.recording-start_playout s,
    laws.recording-start_playout (adm.start_recording s).1,
  )

  abbrev pub restarted_input : S
  restarted_input = (adm.init_recording (adm.stop_recording s).1).1

  -- For a module that keeps its status: restarting the input does nothing if it does not record;
  -- if it records, it records afterwards exactly if the start after a stop and an initialization
  -- ends with status 0, and whether it plays is as before.
  pub restart_audio_input_device-restarts :
      ((recording s ≡ false) × (restart_audio_input_device adm true s ≡ (tt, s, [])))
      ⊎ ((recording s ≡ true)
          × (recording (restart_audio_input_device adm true s).1
              ≡ is_zero (adm.start_recording restarted_input).0)
          × (playing (restart_audio_input_device adm true s).1 ≡ playing s))
  unfolding restart_audio_input_device
  restart_audio_input_device-restarts = ground (
    arith,
    laws.recording-stop s,
    laws.init_recording_lem (adm.stop_recording s).1,
    laws.recording-start restarted_input,
    laws.playing-start_recording restarted_input,
    laws.playing-init_recording (adm.stop_recording s).1,
    laws.playing-stop_recording s,
  )

  abbrev pub stopped_output : S
  stopped_output = if playing s then (adm.stop_playout s).1 else s

  abbrev pub restarted_output : S
  restarted_output = (adm.init_playout stopped_output).1

  -- For a module that keeps its status: after a restart of the output, whether it played before
  -- or not, it plays exactly if the start after a stop (where it played) and an initialization
  -- ends with status 0, and whether it records is as before.
  pub restart_audio_output_device-restarts :
      (playing (restart_audio_output_device adm true s).1
        ≡ is_zero (adm.start_playout restarted_output).0)
      × (recording (restart_audio_output_device adm true s).1 ≡ recording s)
  unfolding restart_audio_output_device
  restart_audio_output_device-restarts = ground (
    arith,
    laws.playing-stop s,
    laws.init_playout_lem stopped_output,
    laws.playing-start restarted_output,
    laws.recording-start_playout restarted_output,
    laws.recording-init_playout stopped_output,
    laws.recording-stop_playout s,
  )
