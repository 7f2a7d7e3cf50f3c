-- ===== src/Devices/Linux/Tests.antt =====
-- The port of interface/linux/uart.hpp on a system with one bit to a mask, whose port opens and
-- does not take the settings.
use libprotoserial.Prelude.{ℕ, ◌≡◌, ◌⊎◌, true, false, none, some, ok, err, open_failed, ◌==◌, arith}
use libprotoserial.Interface.Fragment.{uart}
use libprotoserial.Devices.{create}
use libprotoserial.Devices.Linux.Port.{
  Flags, Termios, System, IsPosix, IsRaw, connect, connect-IsRaw,
}

abbrev mask : ℕ → Flags
mask i = λ bit. bit == i

abbrev cooked : Termios ℕ
cooked = record {
  c_iflag = λ bit. true;
  c_oflag = λ bit. true;
  c_cflag = λ bit. true;
  c_lflag = λ bit. true;
  vtime = 10;
  vmin = 1;
  others = 0;
}

abbrev system : System
system = record {
  Others = ℕ;
  parenb = mask 8;
  cstopb = mask 6;
  csize = mask 4;
  cs8 = mask 4;
  crtscts = mask 31;
  cread = mask 7;
  clocal = mask 11;
  icanon = mask 1;
  echo = mask 3;
  echoe = mask 4;
  echonl = mask 6;
  isig = mask 0;
  ixon = mask 10;
  ixoff = mask 12;
  ixany = mask 11;
  ignbrk = mask 0;
  brkint = mask 1;
  parmrk = mask 3;
  istrip = mask 5;
  inlcr = mask 6;
  igncr = mask 7;
  icrnl = mask 8;
  opost = mask 0;
  onlcr = mask 2;
  cfsetospeed = λ speed t. record t { others = speed };
  cfsetispeed = λ speed t. record t { others = speed };
  open_port = λ port. some port;
  tcgetattr = λ fd. some cooked;
  tcsetattr = λ fd t. false;
}

system-IsPosix : IsPosix system
system-IsPosix = record {
  cs8-csize = λ bit h. h;
  csize_apart = λ bit h. ground arith;
  parenb_apart = λ bit h. ground arith;
  cstopb_apart = λ bit h. ground arith;
  crtscts_apart = λ bit h. ground arith;
}

connect-IsRaw_example :
    let r = connect system 3 9600 0 1 255 4 20 32 in
    let d = create (record { identifier = uart; inst = 0 }) 1 255 4 32 20 in
    ((system.open_port 3 ≡ none) × (r ≡ err open_failed))
    ⊎ ((fd : ℕ) × (system.open_port 3 ≡ some fd)
        × (((system.tcgetattr fd ≡ none) × (r ≡ ok (d, fd, none)))
            ⊎ ((t : Termios ℕ) × (r ≡ ok (d, fd, some t)) × IsRaw system t)))
connect-IsRaw_example = connect-IsRaw system 3 9600 0 1 255 4 20 32 system-IsPosix
