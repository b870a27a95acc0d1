-- ===== src/Qrmiocs/Log.antt =====
-- src/internal/qrmiocs/log.go: the lines of the logger. The message is what `fmt` makes of a format
-- and its arguments.
use qpu_resource.Prelude.{[], ◌∷◌, ◌++◌, ◌≡◌, refl, Text, codes, text_eq, if◌then◌else◌, or_default}

-- Where a line goes, and the line.
pub data Stream : Type 0 where
  stdout : Stream
  stderr : Stream

module _ (component : Text) where
  -- `write`.
  unfoldable pub write : Stream → Text → Text → Stream × Text
  write w level message =
      (w, component ++ ((b'[' ∷ level) ++ (codes "]: " ++ (message ++ (b'\n' ∷ [])))))

  unfoldable pub info : Text → Stream × Text
  unfolding write
  info message = write stdout (codes "INFO") message

  unfoldable pub warn : Text → Stream × Text
  unfolding write
  warn message = write stderr (codes "WARN") message

  unfoldable pub error : Text → Stream × Text
  unfolding write
  error message = write stderr (codes "ERROR") message

  -- "QRMI %s: %s" and "QRMI %s %s: %s".
  abbrev record_text : Text → Text → Text
  record_text target message = codes "QRMI " ++ (target ++ (codes ": " ++ message))

  abbrev levelled_text : Text → Text → Text → Text
  levelled_text level target message =
      codes "QRMI " ++ (level ++ (codes " " ++ (target ++ (codes ": " ++ message))))

  abbrev target_of : Text → Text
  target_of target = or_default target (codes "qrmi")

  -- `QRMILog`, in which DEBUG and TRACE are written as any other level.
  unfoldable pub qrmi_log : (level target message : Text) → Stream × Text
  unfolding info warn error text_eq
  qrmi_log level target message =
      if text_eq level (codes "ERROR")
      then error (record_text (target_of target) message)
      else if text_eq level (codes "WARN")
      then warn (record_text (target_of target) message)
      else if text_eq level (codes "INFO")
      then info (record_text (target_of target) message)
      else info (levelled_text level (target_of target) message)

  logs_records :
      (qrmi_log (codes "DEBUG") [] (codes "m")
        ≡ (stdout, component ++ codes "[INFO]: QRMI DEBUG qrmi: m\n"))
      × (qrmi_log (codes "WARN") (codes "t") (codes "m")
          ≡ (stderr, component ++ codes "[WARN]: QRMI t: m\n"))
  unfolding qrmi_log
  logs_records = (refl, refl)
