-- ===== src/Exec/Resized.antt =====
-- Which size a resize asks for.
use finch_daemon.Prelude.{ℕ, ◌-◌, ◌%◌, ◌^◌, ◌<◌, ◌≡◌, refl, inl, inr, String, false, some, arith}
use finch_daemon.Prelude.Int.{ℤ, pos, negsuc}
use finch_daemon.Act.{Result, ok, err, Result-cases}
use finch_daemon.Exec.Service.{ExecBackend, ExecInstance, load_exec_instance, resize, word32}
use finch_daemon.Exec.Handlers.{
  Request, parse_exec_id, get_query_param_int, resize_handler, exec_code,
}

-- The size that the terminal gets for a number of the query.
abbrev pub on_terminal : ℤ → ℕ
on_terminal (pos n) = n % 2 ^ 32
on_terminal (negsuc k) = 2 ^ 32 - 1 - k % 2 ^ 32

-- A number of 64 bits.
abbrev pub IsInt64 : ℤ → Type 0
IsInt64 (pos n) = n < 2 ^ 63
IsInt64 (negsuc k) = k < 2 ^ 63

word32-eq : (z : ℤ) → IsInt64 z → word32 z ≡ on_terminal z
word32-eq (pos n) h = omega arith
word32-eq (negsuc k) h = omega arith

abbrev pub resize_code : Result (Unit {0}) → ℕ
resize_code (ok u) = 200
resize_code (err e) = exec_code e

module _ {W : Type 0} (b : ExecBackend W) where
  -- A resize with two numbers, for a process that is found, resizes it once. A number from 0 to
  -- 2 ^ 32 - 1 is the size that the process gets; one above is taken modulo 2 ^ 32, and a negative
  -- one is counted down from 2 ^ 32.
  pub resize_handler_lem :
      (r : Request) (w : W) (cid proc_id : String) (height width : ℤ) (exec : ExecInstance b)
      → IsInt64 height
      → IsInt64 width
      → get_query_param_int r "h" ≡ ok height
      → get_query_param_int r "w" ≡ ok width
      → parse_exec_id r.id ≡ ok (cid, proc_id)
      → (load_exec_instance b cid proc_id false w).0 ≡ ok exec
      → ((resize_handler b r w).1
          ≡ (b.resize exec.process
              (on_terminal width)
              (on_terminal height)
              (load_exec_instance b cid proc_id false w).1).1)
        × ((resize_handler b r w).0.code
            ≡ some (
                resize_code
                  (b.resize exec.process
                    (on_terminal width)
                    (on_terminal height)
                    (load_exec_instance b cid proc_id false w).1).0))
  unfolding resize_handler resize
  resize_handler_lem r w cid proc_id height width exec h_fits w_fits h_is w_is ids found =
      let hh = word32-eq height h_fits in
      let ww = word32-eq width w_fits in
      let result =
        b.resize exec.process (on_terminal width) (on_terminal height)
          (load_exec_instance b cid proc_id false w).1 in
      (
        rw (h_is, w_is, ids, found, hh, ww) refl,
        elim (Result-cases result.0) [
          | inl (u, done) ↦ rw (h_is, w_is, ids, found, hh, ww, done) refl
          | inr (e, failed) ↦ rw (h_is, w_is, ids, found, hh, ww, failed) refl
        ],
      )
