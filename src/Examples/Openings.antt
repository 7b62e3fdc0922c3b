-- ===== src/Examples/Openings.antt =====
-- Openings of a suite of two.
use cope_chess.Prelude.{◌≡◌, length, min}
use cope_chess.Tournament.Openings.{of_suite, list_suite_opening_ids}
use cope_chess.Tournament.Openings.Count.{list_suite_opening_ids-length}
use cope_chess.Examples.Data.{fresh_db}

list_suite_opening_ids-length_example :
    length (list_suite_opening_ids 9 5 2 fresh_db) ≡ min 5 (length (of_suite 9 fresh_db))
list_suite_opening_ids-length_example = list_suite_opening_ids-length 9 5 2 fresh_db
