-- ===== src/Devices/Linux/Port.antt =====
-- How `uart_interface` of interface/linux/uart.hpp opens and sets up its port. A word of flags says
-- of each bit whether it is set; the masks and the system calls are the operating system's, and are
-- parameters.
use libprotoserial.Prelude.{
  ℕ, ◌≡◌, ◌⊎◌, refl, Bool, true, false, ◌&&◌, ◌||◌, not, Option, none, some, Result, ok, err,
  open_failed, inl, inr, Option-cases, arith,
}
use libprotoserial.Interface.Fragment.{InterfaceId, uart}
use libprotoserial.Devices.{Device, create}

abbrev pub Flags : Type 0
Flags = ℕ → Bool

-- `word |= mask` and `word &= ~mask`
abbrev pub set_bits : Flags → Flags → Flags
set_bits mask word = λ bit. word bit || mask bit

abbrev pub clear_bits : Flags → Flags → Flags
clear_bits mask word = λ bit. word bit && not (mask bit)

-- The fields of `struct termios` that are set; the rest is in `others`.
pub record Termios (Others : Type 0) : Type 0 where
  pub c_iflag : Flags
  pub c_oflag : Flags
  pub c_cflag : Flags
  pub c_lflag : Flags
  pub vtime : ℕ
  pub vmin : ℕ
  pub others : Others

-- The constants of termios.h, and the calls: `open` gives a descriptor or fails, `tcgetattr` gives
-- settings or fails, and `tcsetattr` succeeds or not.
pub record System : Type 1 where
  pub Others : Type 0
  pub parenb : Flags
  pub cstopb : Flags
  pub csize : Flags
  pub cs8 : Flags
  pub crtscts : Flags
  pub cread : Flags
  pub clocal : Flags
  pub icanon : Flags
  pub echo : Flags
  pub echoe : Flags
  pub echonl : Flags
  pub isig : Flags
  pub ixon : Flags
  pub ixoff : Flags
  pub ixany : Flags
  pub ignbrk : Flags
  pub brkint : Flags
  pub parmrk : Flags
  pub istrip : Flags
  pub inlcr : Flags
  pub igncr : Flags
  pub icrnl : Flags
  pub opost : Flags
  pub onlcr : Flags
  pub cfsetospeed : ℕ → Termios Others → Termios Others
  pub cfsetispeed : ℕ → Termios Others → Termios Others
  pub open_port : ℕ → Option ℕ
  pub tcgetattr : ℕ → Option (Termios Others)
  pub tcsetattr : ℕ → Termios Others → Bool

module _ (sys : System) where
  open sys use {Others}

  -- The assignments to the fields, in their order.
  pub configure : Termios Others → Termios Others
  configure tty = record tty {
    c_cflag = set_bits (set_bits sys.cread sys.clocal) (
        clear_bits sys.crtscts (
          set_bits sys.cs8
            (clear_bits sys.csize (clear_bits sys.cstopb (clear_bits sys.parenb tty.c_cflag)))));
    c_lflag = clear_bits sys.isig (
        clear_bits sys.echonl
          (clear_bits sys.echoe (clear_bits sys.echo (clear_bits sys.icanon tty.c_lflag))));
    c_iflag =
        clear_bits
          (set_bits sys.icrnl (
            set_bits sys.igncr (
              set_bits sys.inlcr
                (set_bits sys.istrip (set_bits sys.parmrk (set_bits sys.brkint sys.ignbrk))))))
          (clear_bits (set_bits sys.ixany (set_bits sys.ixoff sys.ixon)) tty.c_iflag);
    c_oflag = clear_bits sys.onlcr (clear_bits sys.opost tty.c_oflag);
    vtime = 0;
    vmin = 0;
  }

  -- `set_interface_attribs`: whether it returns 0, and the settings that it asked for. The parity
  -- is not used.
  pub set_interface_attribs : ℕ → ℕ → Bool × Option (Termios Others)
  unfolding configure
  set_interface_attribs fd speed = elim (sys.tcgetattr fd) [
    | none ↦ (false, none)
    | some tty ↦
        let t = configure (sys.cfsetispeed speed (sys.cfsetospeed speed tty)) in
        (sys.tcsetattr fd t, some t)
  ]

  -- `uart_open`: the descriptor where it returns 1, and the settings that were asked for.
  pub uart_open : ℕ → ℕ → Option (ℕ × Option (Termios Others))
  unfolding set_interface_attribs
  uart_open port baud = elim (sys.open_port port) [
    | none ↦ none
    | some fd ↦ let (done, asked) = set_interface_attribs fd baud in some (fd, asked)
  ]

  -- The constructor, with exceptions enabled.
  pub connect : ℕ → ℕ → ℕ → ℕ → ℕ → ℕ → ℕ → ℕ → Result (Device × ℕ × Option (Termios Others))
  unfolding uart_open
  connect port baud instance_number address broadcast max_queue_size max_fragment_size buffer_size =
      elim (uart_open port baud) [
        | none ↦ err open_failed
        | some (fd, asked) ↦
            let iid : InterfaceId = record { identifier = uart; inst = instance_number } in
            ok
              (create iid address broadcast max_queue_size buffer_size max_fragment_size, fd, asked)
      ]

  -- Eight data bits, no parity, one stop bit, no flow control, no echo and no processing of bytes
  -- in either direction, and reads that do not wait.
  pub record IsRaw (t : Termios Others) : Type 0 where
    pub eight : (bit : ℕ) → sys.csize bit ≡ true → t.c_cflag bit ≡ sys.cs8 bit
    pub no_parity : (bit : ℕ) → sys.parenb bit ≡ true → t.c_cflag bit ≡ false
    pub one_stop : (bit : ℕ) → sys.cstopb bit ≡ true → t.c_cflag bit ≡ false
    pub no_handshake : (bit : ℕ) → sys.crtscts bit ≡ true → t.c_cflag bit ≡ false
    pub reads : (bit : ℕ) → (sys.cread bit || sys.clocal bit) ≡ true → t.c_cflag bit ≡ true
    pub no_line_editing :
        (bit : ℕ)
        → (sys.icanon bit || sys.echo bit || sys.echoe bit || sys.echonl bit || sys.isig bit) ≡ true
        → t.c_lflag bit ≡ false
    pub no_flow :
        (bit : ℕ) → (sys.ixon bit || sys.ixoff bit || sys.ixany bit) ≡ true → t.c_iflag bit ≡ false
    pub unchanged_in :
        (bit : ℕ)
        → (sys.ignbrk bit
            || sys.brkint bit
            || sys.parmrk bit
            || sys.istrip bit
            || sys.inlcr bit
            || sys.igncr bit
            || sys.icrnl bit)
          ≡ true
        → t.c_iflag bit ≡ false
    pub unchanged_out : (bit : ℕ) → (sys.opost bit || sys.onlcr bit) ≡ true → t.c_oflag bit ≡ false
    pub at_once : (t.vtime ≡ 0) × (t.vmin ≡ 0)

  -- What POSIX says of the masks of `c_cflag`: the value of eight bits is one of the field `csize`,
  -- and the fields have no bit in common.
  pub record IsPosix : Type 0 where
    pub cs8-csize : (bit : ℕ) → sys.cs8 bit ≡ true → sys.csize bit ≡ true
    pub csize_apart :
        (bit : ℕ)
        → sys.csize bit ≡ true
        → (sys.crtscts bit ≡ false) × (sys.cread bit ≡ false) × (sys.clocal bit ≡ false)
    pub parenb_apart :
        (bit : ℕ)
        → sys.parenb bit ≡ true
        → (sys.csize bit ≡ false) × (sys.cread bit ≡ false) × (sys.clocal bit ≡ false)
    pub cstopb_apart :
        (bit : ℕ)
        → sys.cstopb bit ≡ true
        → (sys.csize bit ≡ false) × (sys.cread bit ≡ false) × (sys.clocal bit ≡ false)
    pub crtscts_apart :
        (bit : ℕ) → sys.crtscts bit ≡ true → (sys.cread bit ≡ false) × (sys.clocal bit ≡ false)

  configure-IsRaw : IsPosix → (t : Termios Others) → IsRaw (configure t)
  unfolding configure
  configure-IsRaw v t = record {
    eight = λ bit h. ground (arith, v.csize_apart bit);
    no_parity = λ bit h. ground (arith, v.parenb_apart bit, v.cs8-csize bit);
    one_stop = λ bit h. ground (arith, v.cstopb_apart bit, v.cs8-csize bit);
    no_handshake = λ bit h. ground (arith, v.crtscts_apart bit);
    reads = λ bit h. ground arith;
    no_line_editing = λ bit h. ground arith;
    no_flow = λ bit h. ground arith;
    unchanged_in = λ bit h. ground arith;
    unchanged_out = λ bit h. ground arith;
    at_once = (refl, refl);
  }

  -- The constructor throws exactly where the port cannot be opened. Otherwise the object is as
  -- constructed, and raw settings were asked for whatever the settings were, if these could be
  -- read; if not, nothing was asked for, and whether the settings were taken is not looked at. The
  -- masks are as POSIX has them.
  pub connect-IsRaw :
      (port baud instance_number address broadcast max_queue_size max_fragment_size buffer_size : ℕ)
      → IsPosix
      → let r =
          connect port baud instance_number address broadcast max_queue_size max_fragment_size
            buffer_size in
        let d =
          create
            (record { identifier = uart; inst = instance_number })
            address
            broadcast
            max_queue_size
            buffer_size
            max_fragment_size in
        ((sys.open_port port ≡ none) × (r ≡ err open_failed))
        ⊎ ((fd : ℕ) × (sys.open_port port ≡ some fd)
            × (((sys.tcgetattr fd ≡ none) × (r ≡ ok (d, fd, none)))
                ⊎ ((t : Termios Others) × (r ≡ ok (d, fd, some t)) × IsRaw t)))
  unfolding connect uart_open set_interface_attribs
  connect-IsRaw port baud instance_number address broadcast max_queue_size max_fragment_size
        buffer_size v =
      elim (Option-cases (sys.open_port port)) [
        | inl closed ↦ inl (closed, rw (closed, connect, uart_open) refl)
        | inr (fd, opened) ↦ inr (
          fd,
          opened,
          elim (Option-cases (sys.tcgetattr fd)) [
            | inl unknown ↦
                inl (unknown, rw (opened, connect, uart_open, unknown, set_interface_attribs) refl)
            | inr (tty, was) ↦ inr (
              _,
              rw (opened, connect, uart_open, was, set_interface_attribs) refl,
              configure-IsRaw v (sys.cfsetispeed baud (sys.cfsetospeed baud tty)),
            )
          ],
        )
      ]
