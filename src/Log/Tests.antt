-- ===== src/Log/Tests.antt =====
-- Runs of the stream and the sinks of include/corerat/logging.
use core_ra_t.Base.{ℕ, ◌≡◌, List, [], ◌∷◌, ◌++◌, if◌then◌else◌}
use core_ra_t.Log.Level.{level_le, error, warn}
use core_ra_t.Log.Logger.{RtLogger, init, commit}
use core_ra_t.Log.Stream.{
  Item, chars, of_chars, push_all, open_stream, close_stream, message_of, close_stream_lem,
}

-- Text is cut at the capacity by nothing here, and other items leave no trace.
abbrev join_text : ℕ → List ℕ → Item → List ℕ
join_text cap buf (chars s) = buf ++ s
join_text cap buf _ = buf

abbrev join : List ℕ → ℕ → List ℕ → List ℕ
join buf cap s = buf ++ s

abbrev warn_logger : RtLogger
warn_logger = init 4 16 9 warn

close_stream_lem_example :
    close_stream join_text 16 join warn_logger
      (push_all join_text 16
        (open_stream warn_logger error)
        (of_chars (1 ∷ []) ∷ of_chars (2 ∷ []) ∷ []))
      5
    ≡ (if level_le error warn_logger.level
        then commit join warn_logger error
            (message_of join_text 16 [] (of_chars (1 ∷ []) ∷ of_chars (2 ∷ []) ∷ []))
            5
        else warn_logger)
close_stream_lem_example =
    close_stream_lem join_text 16 join warn_logger warn_logger error
      (of_chars (1 ∷ []) ∷ of_chars (2 ∷ []) ∷ []) 5
