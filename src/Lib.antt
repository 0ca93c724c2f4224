-- ===== src/Lib.antt =====
-- nepenthes: a honeypot that offers services with known holes, reads the shellcode that it is sent,
-- downloads what the shellcode points to and hands the files on. This library models the core,
-- nepenthes-core, and parts of its modules.
--
-- The parts and how they work together. A TCPSocket reads from a connection and gives what it reads
-- to its dialogues, each the protocol of one service; what they write is queued as packets and sent
-- later. A dialogue that suspects shellcode gives the message to the ShellcodeManager, whose handlers
-- decode it. What they find there is an url, which DownloadUrl splits and the DownloadManager checks and
-- gives to the handler of its protocol; a download is collected in a DownloadBuffer (dialogues
-- collect in a Buffer) and given to the SubmitManager, which types it, compares its hash with those
-- it knows, and gives it to the submit handlers. All of them tell the EventManager what happens.
-- Of the handlers of shellcode, GenericXor has those that decode what is encoded with an exclusive
-- or, and GenericUniCode the one that narrows what was widened to 16 bits. Three of the handlers of
-- downloads are modelled by their dialogues: TftpDialogue, RcpDialogue, and for ftp CtrlDialogue,
-- its control connection, and FileDialogue, the one that a file comes on. BagleDialogue is one of
-- the services, the back door of a worm; PeirosParser reads the requests of the clients that
-- module-peiros serves. What can be set up is read from configuration files by Config: a lexer, and
-- a parser that builds a tree of items.
--
-- The files:
--   Base                 shared names: tests and lists on the native numbers, the outcome of a call
--                        (Calls), memory (Memory), texts (Text), signed numbers (Int), bytes
--                        changed by a key (Xor)
--   Buffer               nepenthes-core/src/Buffer.cpp: resize, add, cut, getData
--   DownloadBuffer       nepenthes-core/src/DownloadBuffer.cpp: Init, addData, cutFront
--   EventManager         nepenthes-core/src/EventManager.cpp, EventHandler.cpp: registerEvent,
--                        registerInternalEvent, Init, handleEvent, doTimeoutLoop, the handlers' list
--   ShellcodeManager     nepenthes-core/src/ShellcodeManager.cpp: handleShellcode, fileCheck, the list
--   SubmitManager        nepenthes-core/src/SubmitManager.cpp: Init, addSubmission, registerSubmitter
--   TcpSocket            nepenthes-core/src/TCPSocket.cpp, Packet.cpp: doRecv, doSend, doWrite,
--                        setStatus, checkTimeout, handleTimeout, doRespond (Timeouts)
--   Base64               nepenthes-core/src/Utilities.cpp: b64encode_alloc, b64decode_alloc and below
--   DownloadUrl          nepenthes-core/src/DownloadUrl.cpp: the constructor and the setters
--   DownloadManager      nepenthes-core/src/DownloadManager.cpp: isLocalAddress, downloadUrl, the list
--   Config               nepenthes-core/src/Config.cpp: parseString; its children Tokens: skipWS,
--                        parseKey, tokenize; Objects: readObject, findKey, the getters
--   TftpDialogue         modules/download-tftp/TFTPDialogue.cpp: setRequest, incomingData,
--                        handleTimeout
--   RcpDialogue          modules/download-rcp/RCPDialogue.cpp: connectionEstablished, incomingData,
--                        handleTimeout, connectionShutdown
--   GenericXor           modules/shellcode-generic/sch_generic_xor.cpp, sch_generic_konstanz_xor.cpp:
--                        handleShellcode
--   BagleDialogue        modules/vuln-bagle/BagleDialogue.cpp: the constructor, incomingData,
--                        connectionShutdown
--   CtrlDialogue         modules/download-ftp/CTRLDialogue.cpp: the constructor, incomingData with
--                        what it calls, handleTimeout
--   PeirosParser         modules/module-peiros/PeirosParser.cpp: parseData with what it calls,
--                        getRequest, renderRequest
--   GenericUniCode       modules/shellcode-generic/sch_generic_unicode.cpp: handleShellcode,
--                        unicodeLength, unicodeTryDecode
--   FileDialogue         modules/download-ftp/FILEDialogue.cpp: incomingData, connectionShutdown;
--                        download-ftp.cpp: createDialogue
-- A definition has the name of its function in snake_case. A file's children hold the proofs, and its
-- Tests the runs at concrete inputs.
--
-- State is passed on explicitly, and an object is a record with the members that its operations read.
-- A call ends as Base.Calls.Outcome says: it returns, a failed assertion aborts it, it accesses memory
-- that is not its own (fault), it throws, or the fuel of a loop is used up (running).
--
-- Fuel. The doubling loops of the buffers get 33 rounds: within 32 a 32-bit size reaches every sum
-- below 2^31 or has become 0. registerEvent, handleShellcode and doSend run as long as their
-- parameters make them: the fuel is an argument. The lexer and the parser of Config get one more than
-- the characters and the tokens, which is enough as each turn takes one. The loop of parseData gets
-- two rounds for each character of the buffer and two more, and that of unicodeTryDecode one for each
-- byte of the message.
--
-- Parameters. realloc and malloc, send(), rand(), atoi(), strtol(), inet_addr() and inet_ntoa(),
-- the digests, libmagic, the matches of pcre, bindTCPSocket(), what %d and %u print, the
-- configuration's values, and what event handlers, shellcode handlers and dialogues do where the
-- managers and the socket call them. The last change a state of everything else that is handed
-- through, and may not change the object that calls them, but for what the model names: a dialogue
-- writes and changes its level.
-- The events that doRecv, doSend and setStatus raise and the message object itself are not modelled,
-- nor is the log output. Lengths and sizes wrap at 2^32 in the buffers; in the base64 coder they
-- are 32-bit and signed, and an overflow is a fault; in the texts they are taken as numbers.
--
-- Not modelled: the calls of the operating system that open, bind, poll and close sockets, the
-- start of the program, loading of modules, the log writers, MD5 and SHA-512, and the modules but
-- for the dialogues of download-tftp, download-rcp, download-ftp and vuln-bagle, the parser of
-- module-peiros, and the xor and unicode decoders of shellcode-generic.

pub mod BagleDialogue
pub mod Base
pub mod Base64
pub mod Buffer
pub mod Config
pub mod CtrlDialogue
pub mod DownloadBuffer
pub mod DownloadManager
pub mod DownloadUrl
pub mod EventManager
pub mod FileDialogue
pub mod GenericUniCode
pub mod GenericXor
pub mod PeirosParser
pub mod RcpDialogue
pub mod ShellcodeManager
pub mod SubmitManager
pub mod TcpSocket
pub mod TftpDialogue
